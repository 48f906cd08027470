-- ===== src/Versions/Totals/Apk.antt =====
-- Alpine's comparison in analyzer/src/analyzer/detect/versioning.py does not raise on versions of at most
-- 4300 characters.
use kcatta.Prelude.{
  ℕ, ◌≤◌, ◌≡◌, refl, Bool, true, false, not, ◌&&◌, ◌||◌, inl, inr, some, List, [], ◌∷◌, arith, Text,
  if◌then◌else◌, length, length-reverse, max, reverse, is_empty, is_digit, is_letter, all_digits,
  partition, rpartition_pair, split, keep, strip, Bool-cases,
}
use kcatta.Versions.Compare.{older, same, newer, by_text, int_of}
use kcatta.Versions.Apk.{
  Apk, Suffix, suffix_of, suffixes_of, suffix_order, cut_letter, split_apk, starts_with_zero,
  is_int, pad, compare_part, compare_parts, by_apk, by_tail, apk_compare,
}
use kcatta.Versions.Totals.{Ends, both-Ends, or_next-Ends, by_int-Ends, split_short, given-total}
use kcatta.Versions.Short.{
  AllShort, int_of-total, partition-length, strip-length, keep-length, rpartition_pair-length,
  cut_letter-length,
}

suffix_of-total : (chunk : Text) → length chunk ≤ 4300 → (s : Suffix) × (suffix_of chunk ≡ some s)
suffix_of-total chunk h = elim (Bool-cases (is_empty (keep is_digit chunk))) [
  | inl e ↦ ((suffix_order (keep is_letter chunk), 0), rw (suffix_of, e) refl)
  | inr e ↦
      let (n, q) =
        int_of-total (keep is_digit chunk) (omega (arith, h, keep-length is_digit chunk)) in
      ((suffix_order (keep is_letter chunk), n), rw (suffix_of, e, q) refl)
]

suffixes_of-total :
    (chunks : List Text)
    → AllShort 4300 chunks
    → (ss : List Suffix) × (suffixes_of chunks ≡ some ss)
unfolding suffixes_of
suffixes_of-total [] h = ([], refl)
suffixes_of-total (chunk ∷ chunks) h =
    let (s, p) = suffix_of-total chunk h.0 in
    let (ss, q) = suffixes_of-total chunks h.1 in (s ∷ ss, rw (suffixes_of, p, q) refl)

chosen_length :
    (b : Bool) (x y : Text) (n : ℕ) → length x ≤ n → length y ≤ n → length (if b then x else y) ≤ n
chosen_length true x y n p q = p
chosen_length false x y n p q = q

abbrev revised : Text → Bool
revised v = let (_, found, tail) = rpartition_pair 45 114 (strip v) in found && all_digits tail

abbrev core_of : Text → Text × Bool × Text
core_of v = partition 95 (if revised v then (rpartition_pair 45 114 (strip v)).0 else strip v)

split_apk-total :
    (v : Text)
    → length v ≤ 4300
    → (parts : Apk) × (split_apk v ≡ some parts) × AllShort 4300 parts.parts
unfolding split_apk
split_apk-total v h =
    let stripped = strip v in
    let s = strip-length v in
    let (dash, found, tail) = rpartition_pair 45 114 stripped in
    let (d, t) = rpartition_pair-length 45 114 stripped in
    let before = if revised v then dash else stripped in
    let b = chosen_length (revised v) dash stripped (length stripped) d (omega arith) in
    let (core, _, suffix_text) = core_of v in
    let (c, x) = partition-length 95 before in
    let numeric = (cut_letter (reverse core)).1 in
    let l = cut_letter-length (reverse core) in
    let (n, p) =
      given-total (revised v) (int_of tail) (some 0) (int_of-total tail (omega (arith, t, s, h)))
        (0, refl) in
    let (ss, q) =
      given-total (is_empty suffix_text) (some []) (suffixes_of (split 95 suffix_text)) ([], refl)
        (suffixes_of-total (split 95 suffix_text)
          (split_short 95 suffix_text (omega (arith, x, b, s, h)))) in
    (
      record {
        parts = if is_empty numeric then [] else split 46 numeric;
        letter = (cut_letter (reverse core)).0;
        suffixes = ss;
        revision = n;
      },
      rw (split_apk, p, q) refl,
      shorts (is_empty numeric) (split 46 numeric)
          (split_short 46 numeric (omega (arith, l, c, b, s, h, length-reverse core))),
    )
  where
    shorts : (b : Bool) (xs : List Text) → AllShort 4300 xs → AllShort 4300 (if b then [] else xs)
    shorts true xs h = tt
    shorts false xs h = h

compare_part-Ends :
    (a b : Text) (first : Bool) → length a ≤ 4300 → length b ≤ 4300 → Ends (compare_part a b first)
unfolding compare_part
compare_part-Ends a b first h k =
    let width = max (length a) (length b) in
    elim (Bool-cases (not first && (starts_with_zero a || starts_with_zero b))) [
      | inl e ↦ (by_text (pad width a) (pad width b), rw e refl)
      | inr e ↦ elim (Bool-cases (not (is_int a) || not (is_int b))) [
        | inl f ↦ (by_text a b, rw (e, f) refl)
        | inr f ↦ let (c, q) = by_int-Ends a b h k in (c, rw (e, f) q)
      ]
    ]

compare_parts-Ends :
    (first : Bool) (a b : List Text)
    → AllShort 4300 a
    → AllShort 4300 b
    → Ends (compare_parts first a b)
unfolding compare_parts
compare_parts-Ends first [] [] h k = (same, refl)
compare_parts-Ends first [] (y ∷ ys) h k = (older, refl)
compare_parts-Ends first (x ∷ xs) [] h k = (newer, refl)
compare_parts-Ends first (x ∷ xs) (y ∷ ys) h k =
    or_next-Ends _ _ (compare_part-Ends x y first h.0 k.0) (compare_parts-Ends false xs ys h.1 k.1)

pub apk_compare-Ends : (a b : Text) → length a ≤ 4300 → length b ≤ 4300 → Ends (apk_compare a b)
unfolding apk_compare by_apk
apk_compare-Ends a b h k =
    let (x, p, s) = split_apk-total a h in
    let (y, q, t) = split_apk-total b k in
    both-Ends (split_apk a) (split_apk b) by_apk p q (
      or_next-Ends _ (some (by_tail x y)) (compare_parts-Ends true x.parts y.parts s t)
        (by_tail x y, refl))
