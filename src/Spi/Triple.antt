-- ===== src/Spi/Triple.antt =====
-- Statements are sent only in sessions that allow them: a rule for each way to build a program.
use allgres_agent.Text.{Bytes}
use allgres_agent.Base.{◌⊎◌, inl, inr, ◌≡◌, refl, Bool, true, false, [], ◌∷◌, if◌then◌else◌}
use allgres_agent.Spi.Session.{Session, session, after}
use allgres_agent.Spi.{
  Stmt, Answer, Reply, answered, raises, Event, begins, commits, enters, releases, rolls_back,
  asked, arms, disarms, fixes_role, restores_role, Log, Server, Outcome, done, raised, M,
  bind_outcome, ◌>>=◌, ret, emit, receive, ask, Res, ok, err, close_transaction, transaction,
  close_subtransaction, run_in_subtransaction,
}

module _ {V : Type 0} (Allowed : Session → Stmt V → Type 0) where
  abbrev pub EventOk : Event V → Session → Type 0
  EventOk (asked s r) σ = Allowed σ s
  EventOk _ σ = Unit

  -- Every statement of the log was allowed in the session that it met.
  abbrev pub AllOk : Log V → Type 0
  AllOk [] = Unit
  AllOk (e ∷ t) = EventOk e (session t) × AllOk t

  -- The error is the server's own, and its last reply.
  abbrev pub RaisedBy : Bytes → Log V → Type 0
  RaisedBy e (asked s (raises e') ∷ t) = e ≡ e'
  RaisedBy e _ = ⊥

  abbrev pub Post : {A : Type 0} → (A → Session → Type 0) → Outcome A → Log V → Type 0
  Post Q (done a) t = AllOk t × Q a (session t)
  Post Q (raised e) t = AllOk t × RaisedBy e t

  unfoldable pub Triple :
      {A : Type 0} → (Session → Type 0) → M V A → (A → Session → Type 0) → Type 0
  Triple P m Q = (t : Log V) → AllOk t → P (session t) → Post Q (m t).0 (m t).1

  abbrev pub Anything : Session → Type 0
  Anything σ = Unit {0}

  -- From any session, the program sends only allowed statements.
  abbrev pub Safe : {A : Type 0} → M V A → Type 0
  Safe m = Triple Anything m (λ a σ. Unit {0})

  pub bind_rule :
      {A B : Type 0} (P : Session → Type 0) (Q : A → Session → Type 0) (R : B → Session → Type 0)
      (m : M V A) (f : A → M V B)
      → Triple P m Q
      → ((a : A) → Triple (Q a) (f a) R)
      → Triple P (m >>= f) R
  unfolding Triple
  bind_rule {A} P Q R m f hm hf t ok_ p = go (m t).0 (m t).1 (hm t ok_ p)
    where
      go :
          (o : Outcome A) (u : Log V)
          → Post Q o u
          → Post R (bind_outcome o u f).0 (bind_outcome o u f).1
      go (done a) u h = hf a u h.0 h.1
      go (raised e) u h = h

  pub ret_rule :
      {A : Type 0} (P : Session → Type 0) (Q : A → Session → Type 0) (a : A)
      → ((σ : Session) → P σ → Q a σ)
      → Triple P (ret a) Q
  unfolding Triple
  ret_rule P Q a h t ok_ p = (ok_, h (session t) p)

  pub ask_rule :
      (P : Session → Type 0) (Q : Answer V → Session → Type 0) (server : Server V) (s : Stmt V)
      → ((σ : Session) → P σ → Allowed σ s)
      → ((σ : Session) (a : Answer V) → P σ → Q a (after (asked s (answered a)) σ))
      → Triple P (ask server s) Q
  unfolding Triple ask receive
  ask_rule P Q server s allowed next t ok_ p = go (server t s)
    where
      go : (r : Reply V) → Post Q (receive r) (asked s r ∷ t)
      go (answered a) = ((allowed (session t) p, ok_), next (session t) a p)
      go (raises e) = ((allowed (session t) p, ok_), refl)

  transaction_rule :
      {A : Type 0} (P : Session → Type 0) (m : M V A)
      → ((t : Log V)
          → AllOk t
          → P (session t)
          → Post (λ a σ. Unit {0}) (m (begins ∷ t)).0 (m (begins ∷ t)).1)
      → Triple P (transaction m) (λ a σ. Unit {0})
  unfolding Triple
  transaction_rule {A} P m h t ok_ p =
      unfold transaction in go (m (begins ∷ t)).0 (m (begins ∷ t)).1 (h t ok_ p)
    where
      go :
          (o : Outcome A) (u : Log V)
          → Post (λ a σ. Unit {0}) o u
          → Post (λ a σ. Unit {0}) (close_transaction o u).0 (close_transaction o u).1
      go (done a) u h = unfold close_transaction in ((tt, h.0), tt)
      go (raised e) u h = unfold close_transaction in h

  pub transaction-Safe : {A : Type 0} (m : M V A) → Safe m → Safe (transaction m)
  unfolding Triple
  transaction-Safe m h = transaction_rule Anything m (λ t ok_ p. h (begins ∷ t) (tt, ok_) tt)

  pub run_in_subtransaction-Safe :
      {A : Type 0} (m : M V (Res A)) → Safe m → Safe (run_in_subtransaction m)
  unfolding Triple
  run_in_subtransaction-Safe {A} m h t ok_ p =
      unfold run_in_subtransaction in
      go (m (enters ∷ t)).0 (m (enters ∷ t)).1 (h (enters ∷ t) (tt, ok_) tt)
    where
      go :
          (o : Outcome (Res A)) (u : Log V)
          → Post (λ a σ. Unit {0}) o u
          → Post (λ a σ. Unit {0}) (close_subtransaction o u).0 (close_subtransaction o u).1
      go (done (ok v)) u h = unfold close_subtransaction in ((tt, h.0), tt)
      go (done (err e)) u h = unfold close_subtransaction in h
      go (raised e) u h = unfold close_subtransaction in ((tt, h.0), tt)

  -- An event that is no statement.
  abbrev pub IsQuiet : Event V → Type 0
  IsQuiet (asked s r) = ⊥
  IsQuiet _ = Unit

  pub emit_rule :
      (P Q : Session → Type 0) (e : Event V)
      → IsQuiet e
      → ((σ : Session) → P σ → Q (after e σ))
      → Triple P (emit e) (λ u. Q)
  unfolding Triple
  emit_rule P Q begins q h t ok_ p = ((tt, ok_), h (session t) p)
  emit_rule P Q commits q h t ok_ p = ((tt, ok_), h (session t) p)
  emit_rule P Q enters q h t ok_ p = ((tt, ok_), h (session t) p)
  emit_rule P Q releases q h t ok_ p = ((tt, ok_), h (session t) p)
  emit_rule P Q rolls_back q h t ok_ p = ((tt, ok_), h (session t) p)
  emit_rule P Q (asked s r) q h t ok_ p = absurd q
  emit_rule P Q (arms n) q h t ok_ p = ((tt, ok_), h (session t) p)
  emit_rule P Q disarms q h t ok_ p = ((tt, ok_), h (session t) p)
  emit_rule P Q fixes_role q h t ok_ p = ((tt, ok_), h (session t) p)
  emit_rule P Q restores_role q h t ok_ p = ((tt, ok_), h (session t) p)

  pub if_rule :
      {A : Type 0} (P : Session → Type 0) (Q : A → Session → Type 0) (b : Bool) (m n : M V A)
      → (b ≡ true → Triple P m Q)
      → (b ≡ false → Triple P n Q)
      → Triple P (if b then m else n) Q
  if_rule P Q true m n h k = h refl
  if_rule P Q false m n h k = k refl

  pub pre_rule :
      {A : Type 0} (P R : Session → Type 0) (Q : A → Session → Type 0) (m : M V A)
      → ((σ : Session) → R σ → P σ)
      → Triple P m Q
      → Triple R m Q
  unfolding Triple
  pre_rule P R Q m h k t o p = k t o (h (session t) p)

  pub Safe-AllOk : {A : Type 0} (m : M V A) → Safe m → (t : Log V) → AllOk t → AllOk (m t).1
  unfolding Triple
  Safe-AllOk {A} m h t o = go (m t).0 (m t).1 (h t o tt)
    where
      go : (r : Outcome A) (u : Log V) → Post (λ a σ. Unit {0}) r u → AllOk u
      go (done a) u k = k.0
      go (raised e) u k = k.0

  -- It returns, or it ends with the error of the server's last reply.
  abbrev pub Returns : {A : Type 0} → Outcome A → Log V → Type 0
  Returns {A} o t = ((a : A) × (o ≡ done a)) ⊎ ((e : Bytes) × (o ≡ raised e) × RaisedBy e t)

  pub Safe-Returns :
      {A : Type 0} (m : M V A) → Safe m → (t : Log V) → AllOk t → Returns (m t).0 (m t).1
  unfolding Triple
  Safe-Returns {A} m h t o = go (m t).0 (m t).1 (h t o tt)
    where
      go : (r : Outcome A) (u : Log V) → Post (λ a σ. Unit {0}) r u → Returns r u
      go (done a) u k = inl (a, refl)
      go (raised e) u k = inr (e, refl, k.1)

  pub post_rule :
      {A : Type 0} (P : Session → Type 0) (Q R : A → Session → Type 0) (m : M V A)
      → ((a : A) (σ : Session) → Q a σ → R a σ)
      → Triple P m Q
      → Triple P m R
  unfolding Triple
  post_rule {A} P Q R m h k t o p = go (m t).0 (m t).1 (k t o p)
    where
      go : (r : Outcome A) (u : Log V) → Post Q r u → Post R r u
      go (done a) u k = (k.0, h a (session u) k.1)
      go (raised e) u k = k
