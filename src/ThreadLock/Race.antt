-- ===== src/ThreadLock/Race.antt =====
-- The steps of one of two threads, towards a state that both can be brought to.
use drone_db.Base.{
  ℕ, ◌≡◌, refl, ap, ◌∙◌, true, false, Option, none, some, Text, same_refl, eqb, eqb_iff, update,
}
use drone_db.ThreadLock.{
  ℤ, pos, Thread, outside, searched, counted, waiting, holding, releasing, unlocked, spent, erased,
  Locks, put, goes_to, set_count, set_locked, with_mutex, act, Steps, step,
}

update_same : {A : Type 0} (f : ℕ → A) (i : ℕ) (v : A) → update f i v i ≡ v
update_same f i v = rw ((eqb_iff i i).1 refl) refl

update_other : {A : Type 0} (f : ℕ → A) (i j : ℕ) (v : A) → eqb i j ≡ false → update f i v j ≡ f j
update_other f i j v d = rw d refl

put_same : {A : Type 0} (f : Text → A) (key : Text) (v : A) → put key v f key ≡ v
put_same f key v = rw (same_refl key) refl

-- Of two threads and a name: where they are, the count, and the mutex of the name.
pub record At (key : Text) (i j : ℕ) (s : Locks) (x y : Thread) (c : Option ℤ) (m : Option ℕ)
    : Type 0 where
  pub here : s.threads i ≡ x
  pub there : s.threads j ≡ y
  pub count : s.counts key ≡ c
  pub mutex : s.mutexes key ≡ m

-- There are steps to a state as wanted.
abbrev pub CanReach : (Locks → Type 0) → Locks → Type 0
CanReach P s = (s' : Locks) × Steps s s' × P s'

go :
    (P : Locks → Type 0) (key : Text) (i : ℕ) (s s1 : Locks) (x : Thread)
    → s.threads i ≡ x
    → act key i s x ≡ some s1
    → CanReach P s1
    → CanReach P s
go P key i s s1 x at moved (s2, steps, wanted) =
    (s2, step key i s s1 s2 (ap (act key i s) at ∙ moved) steps, wanted)

pub flip :
    {key : Text} {i j : ℕ} {s : Locks} {x y : Thread} {c : Option ℤ} {m : Option ℕ}
    → At key i j s x y c m
    → At key j i s y x c m
flip a = record { here = a.there; there = a.here; count = a.count; mutex = a.mutex }

-- One step of the first of the two threads.
module _ (P : Locks → Type 0) (key : Text) (i j : ℕ) (d : eqb i j ≡ false) (s : Locks)
    (y : Thread) where
  abbrev Next : Thread → Option ℤ → Option ℕ → Type 0
  Next x c m = (s1 : Locks) → At key i j s1 x y c m → CanReach P s1

  -- with a mutex that is free
  abbrev NextFree : Thread → Option ℤ → Option ℕ → ℕ → Type 0
  NextFree x c m a = (s1 : Locks) → At key i j s1 x y c m → s1.locked a ≡ false → CanReach P s1

  pub finds_none :
      (m : Option ℕ)
      → At key i j s outside y none m
      → Next (searched key false) none m
      → CanReach P s
  unfolding act
  finds_none m a next = go P key i s _ outside a.here (rw a.count refl) (
      next (goes_to i (searched key false) s) (record {
        here = update_same s.threads i _;
        there = update_other s.threads i j _ d ∙ a.there;
        count = a.count;
        mutex = a.mutex;
      }))

  pub sets_one :
      (c : Option ℤ) (m : Option ℕ)
      → At key i j s (searched key false) y c m
      → Next (counted key) (some (pos 1)) m
      → CanReach P s
  unfolding act
  sets_one c m a next = go P key i s _ (searched key false) a.here refl (
      next _ (record {
        here = update_same s.threads i _;
        there = update_other s.threads i j _ d ∙ a.there;
        count = put_same s.counts key _;
        mutex = a.mutex;
      }))

  pub inserts :
      (c : Option ℤ)
      → At key i j s (counted key) y c none
      → NextFree (waiting key s.next) c (some s.next) s.next
      → CanReach P s
  unfolding act
  inserts c a next =
      go P key i s _ (counted key) a.here
        (ap (λ m. some (with_mutex key i (waiting key) m s)) a.mutex)
        (next _
          (record {
            here = update_same s.threads i _;
            there = update_other s.threads i j _ d ∙ a.there;
            count = a.count;
            mutex = put_same s.mutexes key _;
          })
          (update_same s.locked s.next false))

  pub gets :
      (c : Option ℤ) (m : ℕ)
      → At key i j s (counted key) y c (some m)
      → Next (waiting key m) c (some m)
      → CanReach P s
  unfolding act
  gets c m a next =
      go P key i s _ (counted key) a.here
        (ap (λ z. some (with_mutex key i (waiting key) z s)) a.mutex)
        (next _ (record {
          here = update_same s.threads i _;
          there = update_other s.threads i j _ d ∙ a.there;
          count = a.count;
          mutex = a.mutex;
        }))

  pub locks :
      (c : Option ℤ) (m : Option ℕ) (n : ℕ)
      → At key i j s (waiting key n) y c m
      → s.locked n ≡ false
      → Next (holding key n) c m
      → CanReach P s
  unfolding act
  locks c m n a free next = go P key i s _ (waiting key n) a.here (rw free refl) (
      next (goes_to i (holding key n) (set_locked n true s)) (record {
        here = update_same s.threads i _;
        there = update_other s.threads i j _ d ∙ a.there;
        count = a.count;
        mutex = a.mutex;
      }))

  pub gets_again :
      (c : Option ℤ) (m n : ℕ)
      → At key i j s (holding key n) y c (some m)
      → Next (releasing key m) c (some m)
      → CanReach P s
  unfolding act
  gets_again c m n a next =
      go P key i s _ (holding key n) a.here
        (ap (λ z. some (with_mutex key i (releasing key) z s)) a.mutex)
        (next _ (record {
          here = update_same s.threads i _;
          there = update_other s.threads i j _ d ∙ a.there;
          count = a.count;
          mutex = a.mutex;
        }))

  pub unlocks :
      (c : Option ℤ) (m : Option ℕ) (n : ℕ)
      → At key i j s (releasing key n) y c m
      → NextFree (unlocked key) c m n
      → CanReach P s
  unfolding act
  unlocks c m n a next = go P key i s _ (releasing key n) a.here refl (
      next _
        (record {
          here = update_same s.threads i _;
          there = update_other s.threads i j _ d ∙ a.there;
          count = a.count;
          mutex = a.mutex;
        })
        (update_same s.locked n false))

  pub spends :
      (m : Option ℕ)
      → At key i j s (unlocked key) y (some (pos 1)) m
      → Next (spent key) (some (pos 0)) m
      → CanReach P s
  unfolding act
  spends m a next = go P key i s _ (unlocked key) a.here (rw a.count refl) (
      next (goes_to i (spent key) (set_count key (some (pos 0)) s)) (record {
        here = update_same s.threads i _;
        there = update_other s.threads i j _ d ∙ a.there;
        count = put_same s.counts key _;
        mutex = a.mutex;
      }))

  pub erases_mutex :
      (c : Option ℤ) (m : Option ℕ)
      → At key i j s (spent key) y c m
      → Next (erased key) c none
      → CanReach P s
  unfolding act
  erases_mutex c m a next = go P key i s _ (spent key) a.here refl (
      next _ (record {
        here = update_same s.threads i _;
        there = update_other s.threads i j _ d ∙ a.there;
        count = a.count;
        mutex = put_same s.mutexes key _;
      }))

  pub erases_count :
      (c : Option ℤ) (m : Option ℕ)
      → At key i j s (erased key) y c m
      → Next outside none m
      → CanReach P s
  unfolding act
  erases_count c m a next = go P key i s _ (erased key) a.here refl (
      next _ (record {
        here = update_same s.threads i _;
        there = update_other s.threads i j _ d ∙ a.there;
        count = put_same s.counts key _;
        mutex = a.mutex;
      }))
