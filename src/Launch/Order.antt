-- ===== src/Launch/Order.antt =====
-- In which order a description lets its processes start. The launch system is an argument: a predicate
-- on the histories that it can produce.
use ros2_ws_gp.Common.{ℕ, ◌≡◌, ◌⊎◌, inl, inr, Bool, true, List, [], ◌∷◌}
use mathlib.Core.Path.{subst}

-- When a process of a description is started: with the description, after some seconds, or once another
-- one has started or has exited.
pub data Cause (K : Type 0) : Type 0 where
  at_once : Cause K
  after_seconds : ℕ → Cause K
  on_start on_exit : K → Cause K

pub data Event (K : Type 0) : Type 0 where
  starts exits : K → Event K

-- A history has its latest event first.
abbrev pub History : Type 0 → Type 0
History K = List (Event K)

module _ {K : Type 0} where
  abbrev pub Occurs : Event K → History K → Type 0
  Occurs e [] = ⊥
  Occurs e (x ∷ t) = (x ≡ e) ⊎ Occurs e t

  -- What has to be in the history before a process with this cause starts.
  abbrev pub Happened : Cause K → History K → Type 0
  Happened at_once t = Unit
  Happened (after_seconds n) t = Unit
  Happened (on_start k) t = Occurs (starts k) t
  Happened (on_exit k) t = Occurs (exits k) t

  -- What the launch system guarantees: a process starts by its cause only and only where its condition
  -- holds, and it exits only after it has started.
  pub record Obeys (cause_of : K → Cause K) (allowed : K → Bool) (Run : History K → Type 0)
      : Type 0 where
    pub earlier : (e : Event K) (t : History K) → Run (e ∷ t) → Run t
    pub caused : (k : K) (t : History K) → Run (starts k ∷ t) → Happened (cause_of k) t
    pub conditioned : (k : K) (t : History K) → Run (starts k ∷ t) → allowed k ≡ true
    pub exits_started : (k : K) (t : History K) → Run (exits k ∷ t) → Occurs (starts k) t

  Happened-later : (c : Cause K) (x : Event K) (t : History K) → Happened c t → Happened c (x ∷ t)
  Happened-later at_once x t h = tt
  Happened-later (after_seconds n) x t h = tt
  Happened-later (on_start k) x t h = inr h
  Happened-later (on_exit k) x t h = inr h

  module _ {cause_of : K → Cause K} {allowed : K → Bool} {Run : History K → Type 0}
      (o : Obeys cause_of allowed Run) where
    -- A process that has started had its cause.
    pub started-Happened :
        (k : K) (t : History K) → Run t → Occurs (starts k) t → Happened (cause_of k) t
    started-Happened k [] run never = absurd never
    started-Happened k (x ∷ t) run (inl now) =
        Happened-later (cause_of k) x t (o.caused k t (subst (λ e. Run (e ∷ t)) now run))
    started-Happened k (x ∷ t) run (inr before) =
        Happened-later (cause_of k) x t (started-Happened k t (o.earlier x t run) before)

    pub started-allowed : (k : K) (t : History K) → Run t → Occurs (starts k) t → allowed k ≡ true
    started-allowed k [] run never = absurd never
    started-allowed k (x ∷ t) run (inl now) = o.conditioned k t (subst (λ e. Run (e ∷ t)) now run)
    started-allowed k (x ∷ t) run (inr before) = started-allowed k t (o.earlier x t run) before

    pub exited-started : (k : K) (t : History K) → Run t → Occurs (exits k) t → Occurs (starts k) t
    exited-started k [] run never = absurd never
    exited-started k (x ∷ t) run (inl now) =
        inr (o.exits_started k t (subst (λ e. Run (e ∷ t)) now run))
    exited-started k (x ∷ t) run (inr before) = inr (exited-started k t (o.earlier x t run) before)
