-- ===== src/Spi/Ends.antt =====
-- What a program returns where no error is raised: a rule for each way to build a program.
use mathlib.Core.Path.{subst}
use allgres_agent.Base.{◌≡◌, refl, Bool, true, false, ap, if◌then◌else◌, ◌∷◌}
use allgres_agent.Spi.{
  Stmt, Answer, Reply, answered, raises, begins, Log, Server, Outcome, done, raised, M,
  bind_outcome, ◌>>=◌, ret, receive, ask, close_transaction, transaction,
}

abbrev pub OnDone : {A : Type 0} → (A → Type 0) → Outcome A → Type 0
OnDone P (done a) = P a
OnDone P (raised e) = Unit

module _ {V : Type 0} where
  unfoldable pub Ends : {A : Type 0} → M V A → (A → Type 0) → Type 0
  Ends m P = (t : Log V) → OnDone P (m t).0

  pub Ends-bind :
      {A B : Type 0} (P : A → Type 0) (Q : B → Type 0) (m : M V A) (f : A → M V B)
      → Ends m P
      → ((a : A) → P a → Ends (f a) Q)
      → Ends (m >>= f) Q
  unfolding Ends
  Ends-bind {A} P Q m f h k t = go (m t).0 (h t)
    where
      go : (o : Outcome A) → OnDone P o → OnDone Q (bind_outcome o (m t).1 f).0
      go (done a) p = k a p (m t).1
      go (raised e) p = tt

  pub Ends-if :
      {A : Type 0} (P : A → Type 0) (b : Bool) (m n : M V A)
      → (b ≡ true → Ends m P)
      → (b ≡ false → Ends n P)
      → Ends (if b then m else n) P
  Ends-if P true m n h k = h refl
  Ends-if P false m n h k = k refl

  pub Ends-any : {A : Type 0} (m : M V A) → Ends m (λ a. Unit)
  unfolding Ends
  Ends-any {A} m t = go (m t).0
    where
      go : (o : Outcome A) → OnDone (λ a. Unit) o
      go (done a) = tt
      go (raised e) = tt

  pub Ends-ask :
      (P : Answer V → Type 0) (server : Server V) (s : Stmt V)
      → ((t : Log V) (a : Answer V) → server t s ≡ answered a → P a)
      → Ends (ask server s) P
  unfolding Ends ask receive
  Ends-ask P server s h t = go (server t s) refl
    where
      go : (r : Reply V) → server t s ≡ r → OnDone P (receive r)
      go (answered a) e = h t a e
      go (raises m) e = tt

  pub Ends-transaction :
      {A : Type 0} (P : A → Type 0) (m : M V A) → Ends m P → Ends (transaction m) P
  unfolding Ends transaction
  Ends-transaction {A} P m h t = go (m (begins ∷ t)).0 (m (begins ∷ t)).1 (h (begins ∷ t))
    where
      go : (o : Outcome A) (u : Log V) → OnDone P o → OnDone P (close_transaction o u).0
      go (done a) u p = unfold close_transaction in p
      go (raised e) u p = unfold close_transaction in tt

  -- A program whose own value does not matter to what follows.
  pub Ends-then :
      {A B : Type 0} (Q : B → Type 0) (m : M V A) (f : A → M V B)
      → ((a : A) → Ends (f a) Q)
      → Ends (m >>= f) Q
  Ends-then Q m f h = Ends-bind (λ a. Unit) Q m f (Ends-any m) (λ a u. h a)

  pub Ends-post :
      {A : Type 0} (P Q : A → Type 0) (m : M V A) → ((a : A) → P a → Q a) → Ends m P → Ends m Q
  unfolding Ends
  Ends-post {A} P Q m h k t = go (m t).0 (k t)
    where
      go : (o : Outcome A) → OnDone P o → OnDone Q o
      go (done a) p = h a p
      go (raised e) p = tt

  -- What holds of every value that is returned holds of one that is.
  pub Ends-done :
      {A : Type 0} (P : A → Type 0) (m : M V A) (t t' : Log V) (a : A)
      → Ends m P
      → m t ≡ (done a, t')
      → P a
  unfolding Ends
  Ends-done P m t t' a h e = subst (OnDone P) (ap (λ r. r.0) e) (h t)

pub Ends-ret : (V : Type 0) {A : Type 0} (P : A → Type 0) (a : A) → P a → Ends {V = V} (ret a) P
unfolding Ends
Ends-ret V P a h t = h
