-- ===== src/Anthropic/Exec.antt =====
-- Methods that change the translator and may fail: what was done before a failure stays done.
use grokbuild_pool.Base.{Bool, true, false, if◌then◌else◌, ◌≡◌, refl}

pub data Answer (A : Type 0) : Type 0 where
  done : A → Answer A
  write_failed : Answer A
  bad_json : Answer A
  unexpected_eof : Answer A

abbrev pub Exec : Type 0 → Type 0 → Type 0
Exec S A = S → S × Answer A

module _ {S A : Type 0} where
  abbrev pub pure : A → Exec S A
  pure a s = (s, done a)

  abbrev pub gets : (S → A) → Exec S A
  gets f s = (s, done (f s))

abbrev pub modify : {S : Type 0} → (S → S) → Exec S (Unit {0})
modify f s = (f s, done tt)

module _ {S A B : Type 0} where
  abbrev pub continue : Answer A → (A → Exec S B) → Exec S B
  continue (done a) f s = f a s
  continue write_failed f s = (s, write_failed)
  continue bad_json f s = (s, bad_json)
  continue unexpected_eof f s = (s, unexpected_eof)

  infixl 10 ◌>>=◌ ◌>>◌
  unfoldable pub ◌>>=◌ : Exec S A → (A → Exec S B) → Exec S B
  ◌>>=◌ m f s = let (s', a) = m s in continue a f s'

  abbrev pub ◌>>◌ : Exec S A → Exec S B → Exec S B
  m >> n = m >>= λ _. n

-- `_ = f()`: the error is dropped.
unfoldable pub ignore : {S A : Type 0} → Exec S A → Exec S (Unit {0})
ignore m s = ((m s).0, done tt)

-- From a state with `P`, whether it returns or fails, an action leads to one with `Q`.
pub record Leads {S A : Type 0} (P Q : S → Type 0) (m : Exec S A) : Type 0 where
  pub at : (s : S) → P s → Q (m s).0

module _ {S : Type 0} {P : S → Type 0} where
  pub Leads-pure : {A : Type 0} (a : A) → Leads P P (pure {S = S} a)
  Leads-pure a = record { at = λ s h. h }

  pub Leads-gets : {A : Type 0} (f : S → A) → Leads P P (gets f)
  Leads-gets f = record { at = λ s h. h }

  pub Leads-ignore : {A : Type 0} (m : Exec S A) → Leads P P m → Leads P P (ignore m)
  unfolding ignore
  Leads-ignore m k = record { at = k.at }

  continue-Leads :
      {A B : Type 0} (a : Answer A) (f : A → Exec S B)
      → ((a : A) → Leads P P (f a))
      → Leads P P (continue a f)
  continue-Leads (done a) f k = k a
  continue-Leads write_failed f k = record { at = λ s h. h }
  continue-Leads bad_json f k = record { at = λ s h. h }
  continue-Leads unexpected_eof f k = record { at = λ s h. h }

  pub Leads-bind :
      {A B : Type 0} (m : Exec S A) (f : A → Exec S B)
      → Leads P P m
      → ((a : A) → Leads P P (f a))
      → Leads P P (m >>= f)
  unfolding ◌>>=◌
  Leads-bind m f km kf = record {
    at = λ s h. let (s', a) = m s in (continue-Leads a f kf).at s' (km.at s h);
  }

continue_at :
    {S A B : Type 0} (P : S → Type 0) (a : Answer A) (f : A → Exec S B) (s : S)
    → P s
    → ((x : A) → a ≡ done x → P (f x s).0)
    → P (continue a f s).0
continue_at P (done a) f s h k = k a refl
continue_at P write_failed f s h k = h
continue_at P bad_json f s h k = h
continue_at P unexpected_eof f s h k = h

-- The rest of a block runs in the state that the first action leaves, if that has not failed.
pub bind_at :
    {S A B : Type 0} (P : S → Type 0) (m : Exec S A) (f : A → Exec S B) (s : S)
    → P (m s).0
    → ((a : A) → (m s).1 ≡ done a → P (f a (m s).0).0)
    → P ((m >>= f) s).0
unfolding ◌>>=◌
bind_at P m f s h k = continue_at P (m s).1 f (m s).0 h k

pub Leads-if :
    {S A : Type 0} {P Q : S → Type 0} (b : Bool) (m n : Exec S A)
    → Leads P Q m
    → Leads P Q n
    → Leads P Q (if b then m else n)
Leads-if true m n km kn = km
Leads-if false m n km kn = kn

-- The last action may lead to another property, which the first keeps too where it fails.
pub Leads-last :
    {S A B : Type 0} {P Q : S → Type 0} (m : Exec S A) (f : A → Exec S B)
    → ((s : S) → P s → Q s)
    → Leads P P m
    → ((a : A) → Leads P Q (f a))
    → Leads P Q (m >>= f)
Leads-last {P = P} {Q = Q} m f weak km kf = record {
  at = λ s h. bind_at Q m f s (weak (m s).0 (km.at s h)) (λ a _. (kf a).at (m s).0 (km.at s h));
}
