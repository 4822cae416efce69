-- ===== src/TurnGate/Keys.antt =====
-- Scope keys tell scopes apart, and the operations on the set of pending keys.
use mossbridge.Prelude.{
  Text, eq_text, eq_text_iff, codes, List, [], ◌∷◌, ◌++◌, true, false, not, ◌||◌, ◌&&◌, any, ◌≡◌,
  refl, ap, arith, ◌≢◌, ◌==◌,
}
use mossbridge.TurnGate.{has, add, delete}

any-snoc :
    (k j : Text) (s : List Text)
    → any (λ x. eq_text x j) (s ++ k ∷ []) ≡ (eq_text k j || any (λ x. eq_text x j) s)
any-snoc k j [] = refl
any-snoc k j (x ∷ s) = ground (arith, any-snoc k j s)

has-member :
    (k : Text) (s : List Text)
    → any (λ x. eq_text x k) s ≡ true
    → (j : Text) → k ≡ j
    → any (λ x. eq_text x j) s ≡ true
has-member k s h j e = rw (← e) h

pub has-add : (k j : Text) (s : List Text) → has j (add k s) ≡ (eq_text k j || has j s)
unfolding has add
has-add k j s = ground (arith, any-snoc k j s, eq_text_iff k j, has-member k s)

pub has-delete : (k j : Text) (s : List Text) → has j (delete k s) ≡ (not (eq_text k j) && has j s)
unfolding has delete
has-delete k j [] = ground arith
has-delete k j (x ∷ s) =
    ground (arith, has-delete k j s, eq_text_iff x k, eq_text_iff x j, eq_text_iff k j)

abbrev pub ColonFree : Text → Type 0
ColonFree s = any (λ c. c == b':') s ≡ false

colon_inside : (a w : Text) → any (λ c. c == b':') (a ++ b':' ∷ w) ≡ true
colon_inside [] w = refl
colon_inside (c ∷ a) w = ground (arith, colon_inside a w)

no_colon : (a w v : Text) → ColonFree v → v ≢ a ++ b':' ∷ w
no_colon a w v h e = cc (h, colon_inside a w, ap (λ (t : Text). any (λ c. c == b':') t) e)

-- Two scope texts with roots free of colons agree only if their parts do.
pub join_parts :
    (a c w v : Text)
    → ColonFree w
    → ColonFree v
    → a ++ (codes "::" ++ w) ≡ c ++ (codes "::" ++ v)
    → (a ≡ c) × (w ≡ v)
join_parts [] [] w v hw hv e = ground arith
join_parts [] (x ∷ []) w v hw hv e = absurd (no_colon [] v w hw (ground arith))
join_parts [] (x ∷ y ∷ c) w v hw hv e = absurd (no_colon c (b':' ∷ v) w hw (ground arith))
join_parts (x ∷ []) [] w v hw hv e = absurd (no_colon [] w v hv (ground arith))
join_parts (x ∷ y ∷ a) [] w v hw hv e = absurd (no_colon a (b':' ∷ w) v hv (ground arith))
join_parts (x ∷ a) (y ∷ c) w v hw hv e = ground (arith, join_parts a c w v)
