-- ===== src/Delivery/Overlap.antt =====
-- `appendStreamingText` against what it is to do: the shortest text that goes on from the one and ends
-- with the other.
use mossbridge.Delivery.Texts.{append_overlap, append_streaming_text}
use mossbridge.Prelude.{
  take-drop, take-length, drop-length, drop-append, length-drop, eq_text-false,
}
use mossbridge.Prelude.{
  ℕ, zero, suc, ◌+◌, ◌-◌, ◌≤◌, ◌<◌, min, ◌≡◌, refl, sym, ap, ◌∙◌, subst, ◌≢◌, inl, inr, true, [],
  ◌∷◌, ◌++◌, append-nil, append_assoc, arith, Text, eq_text, is_empty, starts_with, ends_with,
  eq_text_iff, length, length-append, drop, take, last_n, leb, ◌==◌, ==_iff, Bool-cases,
}

-- A text that starts with `base` and ends with `incoming`.
pub record Joins (base incoming text : Text) : Type 0 where
  pub added : Text
  pub before : Text
  pub starts : text ≡ base ++ added
  pub ends : text ≡ before ++ incoming

ends_with-split : (s p : Text) → ends_with s p ≡ true → (b : Text) × (s ≡ b ++ p)
unfolding ends_with
ends_with-split [] [] h = ([], refl)
ends_with-split [] (d ∷ p) h = absurd (unfold is_empty in cc h)
ends_with-split (c ∷ s) p h = elim (Bool-cases (eq_text (c ∷ s) p)) [
  | inl e ↦ ([], (eq_text_iff (c ∷ s) p).0 e)
  | inr e ↦ let (b, q) = ends_with-split s p (cc (rw e at h)) in (c ∷ b, ap (λ (t : Text). c ∷ t) q)
]

starts_with-split : (s p : Text) → starts_with s p ≡ true → (r : Text) × (s ≡ p ++ r)
unfolding starts_with
starts_with-split s [] h = (s, refl)
starts_with-split [] (d ∷ p) h = absurd (cc h)
starts_with-split (c ∷ s) (d ∷ p) h =
    let (r, q) = starts_with-split s p (ground arith) in
    let e : c ≡ d = (==_iff c d).0 (ground arith) in (r, ground (arith, e, q))

append_overlap-Joins :
    (n : ℕ) (base incoming : Text) → Joins base incoming (append_overlap n base incoming)
unfolding append_overlap
append_overlap-Joins zero base incoming = record {
  added = incoming;
  before = base;
  starts = refl;
  ends = refl;
}
append_overlap-Joins (suc n) base incoming =
    elim (Bool-cases (eq_text (last_n (suc n) base) (take (suc n) incoming))) [
      | inl e ↦ rw e (record {
        added = drop (suc n) incoming;
        before = take (length base - suc n) base;
        starts = refl;
        ends = met ((eq_text_iff (last_n (suc n) base) (take (suc n) incoming)).0 e);
      })
      | inr e ↦ rw e (append_overlap-Joins n base incoming)
    ]
  where
    met :
        last_n (suc n) base ≡ take (suc n) incoming
        → base ++ drop (suc n) incoming ≡ take (length base - suc n) base ++ incoming
    met e =
        ap (λ (t : Text). t ++ drop (suc n) incoming) (sym (take-drop (length base - suc n) base))
        ∙ append_assoc (take (length base - suc n) base) (last_n (suc n) base)
            (drop (suc n) incoming)
        ∙ ap (λ (t : Text). take (length base - suc n) base ++ (t ++ drop (suc n) incoming)) e
        ∙ ap (λ (t : Text). take (length base - suc n) base ++ t) (take-drop (suc n) incoming)

append-Joins : (base incoming : Text) → Joins base incoming (append_streaming_text base incoming)
unfolding append_streaming_text
append-Joins base incoming = elim (Bool-cases (is_empty incoming)) [
  | inl a ↦ rw a (record {
    added = [];
    before = base;
    starts = sym (append-nil base);
    ends = nothing_after incoming a;
  })
  | inr a ↦ elim (Bool-cases (is_empty base)) [
    | inl b ↦
        rw (a, b)
          (record { added = incoming; before = []; starts = nothing_before base b; ends = refl })
    | inr b ↦ elim (Bool-cases (ends_with base incoming)) [
      | inl c ↦
          let (p, q) = ends_with-split base incoming c in
          rw (a, b, c) (record { added = []; before = p; starts = sym (append-nil base); ends = q })
      | inr c ↦ elim (Bool-cases (starts_with incoming base)) [
        | inl d ↦
            let (r, q) = starts_with-split incoming base d in
            rw (a, b, c, d) (record { added = r; before = []; starts = q; ends = refl })
        | inr d ↦
            rw (a, b, c, d)
              (append_overlap-Joins (min (length base) (length incoming)) base incoming)
      ]
    ]
  ]
]
  where
    is_nothing : (t : Text) → is_empty t ≡ true → t ≡ []
    is_nothing [] h = refl
    is_nothing (c ∷ t) h = absurd (unfold is_empty in cc h)

    nothing_after : (t : Text) → is_empty t ≡ true → base ≡ base ++ t
    nothing_after t h = rw (is_nothing t h) (sym (append-nil base))

    nothing_before : (t : Text) → is_empty t ≡ true → incoming ≡ t ++ incoming
    nothing_before t h = rw (is_nothing t h) refl

-- The loop finds the longest overlap that there is.
length-append_overlap :
    (n k : ℕ) (base incoming : Text)
    → k ≤ n
    → n ≤ length incoming
    → last_n k base ≡ take k incoming
    → length (append_overlap n base incoming) + k ≤ length base + length incoming
unfolding append_overlap
length-append_overlap zero k base incoming h m e = omega (arith, h, length-append base incoming)
length-append_overlap (suc n) k base incoming h m e =
    elim (Bool-cases (eq_text (last_n (suc n) base) (take (suc n) incoming))) [
      | inl q ↦ rw q (
          omega
            (arith, h, m, length-append base (drop (suc n) incoming), length-drop (suc n) incoming))
      | inr q ↦ rw q (
          length-append_overlap n k base incoming
            (smaller (eq_text-false (last_n (suc n) base) (take (suc n) incoming) q))
            (omega (arith, m)) e)
    ]
  where
    smaller : last_n (suc n) base ≢ take (suc n) incoming → k ≤ n
    smaller ne = elim (Bool-cases (k == suc n)) [
      | inl i ↦
          absurd
            (ne (subst (λ (x : ℕ). last_n x base ≡ take x incoming) ((==_iff k (suc n)).0 i) e))
      | inr i ↦ ground (arith, h, i)
    ]

-- Two ways to write a text show how much of `base` and `incoming` overlaps.
overlap :
    (base incoming text : Text) (k : ℕ)
    → Joins base incoming text
    → k + length text ≡ length base + length incoming
    → k ≤ length base
    → last_n k base ≡ take k incoming
overlap base incoming text k j e h =
    sym (take-length (last_n k base) j.added)
    ∙ ap (λ (n : ℕ). take n (last_n k base ++ j.added)) size
    ∙ ap (λ (t : Text). take k t) (sym shared)
  where
    size : length (last_n k base) ≡ k
    size = omega (arith, h, length-drop (length base - k) base)

    place : length j.before ≡ length base - k
    place = omega (arith, e, h, ap length j.ends, length-append j.before incoming)

    shared : incoming ≡ last_n k base ++ j.added
    shared =
        sym (drop-length j.before incoming)
        ∙ ap (λ (n : ℕ). drop n (j.before ++ incoming)) place
        ∙ ap (λ (t : Text). drop (length base - k) t) (sym j.ends ∙ j.starts)
        ∙ drop-append (length base - k) base j.added (omega arith)

no_shorter :
    (base incoming text : Text)
    → Joins base incoming text
    → (length base ≤ length text) × (length incoming ≤ length text)
no_shorter base incoming text j = (
  omega (arith, ap length j.starts, length-append base j.added),
  omega (arith, ap length j.ends, length-append j.before incoming),
)

overlap-le :
    (base incoming text : Text)
    → Joins base incoming text
    → length (append_overlap (min (length base) (length incoming)) base incoming) ≤ length text
overlap-le base incoming text j =
    elim (Bool-cases (leb (length base + length incoming) (length text))) [
      | inl e ↦
          let l : length base + length incoming ≤ length text = ground (arith, e) in
          omega (
            arith,
            l,
            found 0 (omega arith) (omega arith) (none_shared (last_n 0 base) (nothing base)),
          )
      | inr e ↦
          let k = length base + length incoming - length text in
          let m = no_shorter base incoming text j in
          let l : length text < length base + length incoming = ground (arith, e) in
          let hb : k ≤ length base = omega (arith, m, l) in
          let hi : k ≤ length incoming = omega (arith, m, l) in
          omega (arith, l, found k hb hi (overlap base incoming text k j (omega (arith, l)) hb))
    ]
  where
    found :
        (k : ℕ)
        → k ≤ length base
        → k ≤ length incoming
        → last_n k base ≡ take k incoming
        → length (append_overlap (min (length base) (length incoming)) base incoming) + k
          ≤ length base + length incoming
    found k hb hi e =
        length-append_overlap (min (length base) (length incoming)) k base incoming
          (omega (arith, hb, hi)) (omega arith) e

    nothing : (t : Text) → length (last_n 0 t) ≡ 0
    nothing t = omega (arith, length-drop (length t - 0) t)

    none_shared : (t : Text) → length t ≡ 0 → t ≡ []
    none_shared [] h = refl
    none_shared (c ∷ t) h = absurd (omega (arith, h))

-- The text that `appendStreamingText` builds starts with the text so far and ends with the new
-- piece, and no text that does so is shorter.
pub append_streaming_text-shortest :
    (base incoming text : Text)
    → Joins base incoming text
    → Joins base incoming (append_streaming_text base incoming)
      × (length (append_streaming_text base incoming) ≤ length text)
append_streaming_text-shortest base incoming text j = (append-Joins base incoming, shorter)
  where
    shorter : length (append_streaming_text base incoming) ≤ length text
    shorter =
        unfold append_streaming_text in
        ground (arith, no_shorter base incoming text j, overlap-le base incoming text j)
