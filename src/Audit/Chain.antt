-- ===== src/Audit/Chain.antt =====
-- The hash chain of the audit log (internal/service/audit.go) as a property of its rows.
use agent_os_backend.Prelude.{
  ℕ, suc, ◌<◌, String, ◌≡◌, ◌≢◌, refl, sym, ap, ◌∙◌, some, List, [], ◌∷◌, ◌++◌, arith, All, map,
  length, In, inr, inl,
}
use agent_os_backend.Errors.{ok}
use agent_os_backend.Audit.Rows.{AuditEvent}
use agent_os_backend.Audit.Repo.{latest, later}
use agent_os_backend.Audit.Service.{Externals, compute_audit_event_hash, payload, sha256}

-- The row stands in the chain behind a row with the hash `prev` and the number `seq`.
pub record Linked (x : Externals) (prev : String) (seq : ℕ) (e : AuditEvent) : Type 0 where
  pub numbered : e.sequence ≡ suc seq
  pub follows : e.previous_hash ≡ prev
  pub filled : e.event_hash ≢ ""
  pub anchored : e.previous_hash ≢ ""
  pub hashed : compute_audit_event_hash x e ≡ ok e.event_hash
  pub by_sha256 : e.hash_algorithm ≡ sha256

abbrev pub Chain : Externals → String → ℕ → List AuditEvent → Type 0
Chain x prev seq [] = Unit
Chain x prev seq (e ∷ es) = Linked x prev seq e × Chain x e.event_hash e.sequence es

-- where a chain ends
abbrev pub tip_hash : String → List AuditEvent → String
tip_hash prev [] = prev
tip_hash prev (e ∷ es) = tip_hash e.event_hash es

abbrev pub tip_sequence : ℕ → List AuditEvent → ℕ
tip_sequence seq [] = seq
tip_sequence seq (e ∷ es) = tip_sequence e.sequence es

module _ (x : Externals) where
  pub Chain-append :
      (prev : String) (seq : ℕ) (es : List AuditEvent) (e : AuditEvent)
      → Chain x prev seq es
      → Linked x (tip_hash prev es) (tip_sequence seq es) e
      → Chain x prev seq (es ++ e ∷ [])
  Chain-append prev seq [] e c l = (l, tt)
  Chain-append prev seq (y ∷ ys) e c l = (c.0, Chain-append y.event_hash y.sequence ys e c.1 l)

  pub Chain-rises :
      (prev : String) (seq : ℕ) (es : List AuditEvent)
      → Chain x prev seq es
      → All (λ e. seq < e.sequence) es
  Chain-rises prev seq [] c = tt
  Chain-rises prev seq (e ∷ es) c =
      let k = Chain-rises e.event_hash e.sequence es c.1 in
      (omega (arith, c.0.numbered), lower es k)
    where
      lower :
          (l : List AuditEvent)
          → All (λ a. e.sequence < a.sequence) l
          → All (λ a. seq < a.sequence) l
      lower [] h = tt
      lower (a ∷ rest) h = (omega (arith, c.0.numbered, h.0), lower rest h.1)

  -- The last row of a chain is the latest.
  pub latest-Chain :
      (prev : String) (seq : ℕ) (e : AuditEvent) (es : List AuditEvent)
      → Chain x prev seq (e ∷ es)
      → (l : AuditEvent) × (latest (e ∷ es) ≡ some l)
        × (l.event_hash ≡ tip_hash prev (e ∷ es))
        × (l.sequence ≡ tip_sequence seq (e ∷ es))
        × (seq < l.sequence)
  unfolding latest later
  latest-Chain prev seq e [] c = (e, refl, refl, refl, omega (arith, c.0.numbered))
  latest-Chain prev seq e (y ∷ ys) c =
      let (l, found, hash, number, above) = latest-Chain e.event_hash e.sequence y ys c.1 in
      let kept : later e (some l) ≡ l = ground arith in
      (l, ap some (ap (later e) found ∙ kept), hash, number, omega (arith, above, c.0.numbered))

  -- Two chains of one length that end in one hash hold the same contents, unless two of their rows
  -- collide.
  pub Chain-tip :
      (prev prev' : String) (seq seq' : ℕ) (es es' : List AuditEvent)
      → ((a b : AuditEvent)
          → In a es
          → In b es'
          → compute_audit_event_hash x a ≡ compute_audit_event_hash x b
          → payload x a ≡ payload x b)
      → Chain x prev seq es
      → Chain x prev' seq' es'
      → length es ≡ length es'
      → tip_hash prev es ≡ tip_hash prev' es'
      → (map (payload x) es ≡ map (payload x) es') × (prev ≡ prev')
  unfolding payload
  Chain-tip prev prev' seq seq' [] [] apart c c' n h = (refl, h)
  Chain-tip prev prev' seq seq' [] (e ∷ es) apart c c' n h = absurd (omega (arith, n))
  Chain-tip prev prev' seq seq' (e ∷ es) [] apart c c' n h = absurd (omega (arith, n))
  Chain-tip prev prev' seq seq' (e ∷ es) (y ∷ ys) apart c c' n h =
      let (rest, same) =
        Chain-tip e.event_hash y.event_hash e.sequence y.sequence es ys
          (λ a b i j. apart a b (inr i) (inr j)) c.1 c'.1 (omega (arith, n)) h in
      let one = apart e y (inl refl) (inl refl) (c.0.hashed ∙ ap ok same ∙ sym c'.0.hashed) in
      (
        ap (λ p. p ∷ map (payload x) es) one ∙ ap (λ l. payload x y ∷ l) rest,
        sym c.0.follows ∙ ap (λ p. p.previous_hash) one ∙ c'.0.follows,
      )

  pub tip_hash-filled :
      (prev : String) (seq : ℕ) (e : AuditEvent) (es : List AuditEvent)
      → Chain x prev seq (e ∷ es)
      → tip_hash prev (e ∷ es) ≢ ""
  tip_hash-filled prev seq e [] c = c.0.filled
  tip_hash-filled prev seq e (y ∷ ys) c = tip_hash-filled e.event_hash e.sequence y ys c.1
