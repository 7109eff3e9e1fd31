-- ===== src/Secoc/Store/Laws.antt =====
-- What is read back from a counter file, on every fault of the disk.
use mathlib.Core.Path.{subst}
use ros2_ws_gp.Common.{
  ℕ, ◌≡◌, refl, ap, sym, inl, inr, true, false, some, [], ◌∷◌, ◌++◌, arith, if◌then◌else◌, All,
  Bool-cases, drop,
}
use ros2_ws_gp.Common.Int.{pos}
use ros2_ws_gp.Common.Dict.{lookup-insert, beq_refl}
use ros2_ws_gp.Common.Text.{Text, text_eq, text_beq, text_beq_iff, codes, Lacks}
use ros2_ws_gp.Common.Text.Decimal.{
  print, is_digit, print-Digits, print-injective, parse_int-print, strip-print, print_nonempty,
}
use ros2_ws_gp.Secoc.Store.{
  Kind, tx, rx, chars, Files, Fault, healthy, open_fails, write_fails, replace_fails, path,
  temporary, read_counter, counter_in, line_of, store, kind_text,
}

-- The fifth letter from the right of `secoc_txfv_` and `secoc_rxfv_`.
kind_letter : Text → ℕ
kind_letter t = elim (drop 6 t) [ [] ↦ 0 | c ∷ _ ↦ c ]

-- Different counters have different files.
path-injective : (k l : Kind) (d e : ℕ) → path k d ≡ path l e → (k ≡ l) × (d ≡ e)
unfolding path kind_letter
path-injective tx tx d e h = (refl, print-injective d e (ap (drop 11) h))
path-injective tx rx d e h = absurd (omega (arith, ap kind_letter h))
path-injective rx tx d e h = absurd (omega (arith, ap kind_letter h))
path-injective rx rx d e h = (refl, print-injective d e (ap (drop 11) h))

Lacks-append : (c : ℕ) (s t : Text) → Lacks c s → Lacks c t → Lacks c (s ++ t)
Lacks-append c [] t h k = k
Lacks-append c (x ∷ s) t h k = (h.0, Lacks-append c s t h.1 k)

Digits-Lacks : (t : Text) → All (λ c. is_digit c ≡ true) t → Lacks b'.' t
unfolding is_digit
Digits-Lacks [] h = tt
Digits-Lacks (c ∷ t) h = (ground arith, Digits-Lacks t h.1)

kind_text-Lacks : (k : Kind) → Lacks b'.' (kind_text k)
unfolding kind_text
kind_text-Lacks tx = ground arith
kind_text-Lacks rx = ground arith

path-Lacks : (k : Kind) (d : ℕ) → Lacks b'.' (path k d)
unfolding path
path-Lacks k d = Lacks-append b'.' (codes "secoc_") _ (ground arith) (
    Lacks-append b'.' (kind_text k) _ (kind_text-Lacks k)
      (Lacks-append b'.' (codes "fv_") _ (ground arith) (Digits-Lacks (print d) (print-Digits d))))

Lacks-tmp : (s : Text) → ¬ Lacks b'.' (s ++ codes ".tmp")
Lacks-tmp [] h = cc
Lacks-tmp (c ∷ s) h = Lacks-tmp s h.1

path-ne-temporary : (k l : Kind) (d e : ℕ) → text_beq (temporary l e) (path k d) ≡ false
unfolding temporary
path-ne-temporary k l d e = elim (Bool-cases (text_beq (temporary l e) (path k d))) [
  | inl same ↦
      absurd (
        Lacks-tmp (path l e)
          (subst (Lacks b'.') (sym ((text_beq_iff _ _).0 same)) (path-Lacks k d)))
  | inr other ↦ other
]

-- The counter files other than the one written, in the form that a rewrite uses.
path-beq : (k l : Kind) (d e : ℕ) → ¬ ((k ≡ l) × (d ≡ e)) → text_beq (path k d) (path l e) ≡ false
path-beq k l d e h = elim (Bool-cases (text_beq (path k d) (path l e))) [
  | inl same ↦ absurd (h (path-injective k l d e ((text_beq_iff _ _).0 same)))
  | inr other ↦ other
]

read_counter-line : (fv : ℕ) → read_counter (some (chars (line_of fv))) ≡ pos fv
unfolding read_counter line_of
read_counter-line fv = rw (strip-print fv, print_nonempty fv, parse_int-print fv)

-- A counter that is stored is read back, as the number that it was.
pub counter_in-store :
    (k : Kind) (d fv : ℕ) (files : Files) → counter_in k d (store healthy k d fv files).1 ≡ pos fv
unfolding counter_in store
counter_in-store k d fv files =
    rw (lookup-insert, beq_refl ⦃e = text_eq⦄ (path k d)) (read_counter-line fv)

-- Every other counter is left as it was, whatever the disk does.
pub counter_in-store_other :
    (fault : Fault) (k l : Kind) (d e fv : ℕ) (files : Files)
    → ¬ ((k ≡ l) × (d ≡ e))
    → counter_in l e (store fault k d fv files).1 ≡ counter_in l e files
unfolding counter_in store
counter_in-store_other healthy k l d e fv files h = rw (lookup-insert, path-beq k l d e h)
counter_in-store_other open_fails k l d e fv files h = refl
counter_in-store_other (write_fails n) k l d e fv files h =
    rw (lookup-insert, path-ne-temporary l k e d)
counter_in-store_other replace_fails k l d e fv files h =
    rw (lookup-insert, path-ne-temporary l k e d)

-- A store that fails, at whatever point, leaves the counter as it was; one that returns has
-- written the new counter.
pub store_atomic :
    (fault : Fault) (k : Kind) (d fv : ℕ) (files : Files)
    → let (written, files') = store fault k d fv files in
      counter_in k d files' ≡ (if written then pos fv else counter_in k d files)
unfolding store
store_atomic healthy k d fv files = counter_in-store k d fv files
store_atomic open_fails k d fv files = refl
store_atomic (write_fails n) k d fv files =
    unfold counter_in in rw (lookup-insert, path-ne-temporary k k d d)
store_atomic replace_fails k d fv files =
    unfold counter_in in rw (lookup-insert, path-ne-temporary k k d d)

-- After a store that failed every counter reads as before.
pub counter_in-store_failed :
    (fault : Fault) (k l : Kind) (d e fv : ℕ) (files : Files)
    → (store fault k d fv files).0 ≡ false
    → counter_in l e (store fault k d fv files).1 ≡ counter_in l e files
unfolding store counter_in
counter_in-store_failed healthy k l d e fv files h = cc
counter_in-store_failed open_fails k l d e fv files h = refl
counter_in-store_failed (write_fails n) k l d e fv files h =
    rw (lookup-insert, path-ne-temporary l k e d)
counter_in-store_failed replace_fails k l d e fv files h =
    rw (lookup-insert, path-ne-temporary l k e d)
