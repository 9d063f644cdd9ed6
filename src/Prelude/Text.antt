-- ===== src/Prelude/Text.antt =====
-- Rust's `String` as the list of its characters' code points, with the operations that the
-- program uses of the standard library.
use stalky.Prelude.{◌≤◌, ◌+◌}
use Prim.Native.Nat.{ℕ}
use Prim.Native.Char.{code}
use Prim.Native.String.{String}
use mathlib.Core.Path.{◌≡◌, refl, sym, ap, ◌∙◌}
use mathlib.Core.Logic.{◌↔◌, inl, inr}
use mathlib.Core.Bool.{Bool, true, false, ◌&&◌, ◌||◌}
use mathlib.Core.List.{List, [], ◌∷◌, ◌++◌, append-nil, append_assoc}
use native.Mathlib.Omega.{arith}
use stalky.Prelude.Tests.{Bool-cases, leb, ◌==◌, if◌then◌else◌}
use stalky.Prelude.Lists.{length, length-append, All}

abbrev pub Text : Type 0
Text = List ℕ

-- The text of a literal.
abbrev pub text : String → Text
text String.[] = []
text (String.◌∷◌ c s) = code c ∷ text s

unfoldable pub text_eq : Text → Text → Bool
text_eq [] [] = true
text_eq [] (y ∷ ys) = false
text_eq (x ∷ xs) [] = false
text_eq (x ∷ xs) (y ∷ ys) = (x == y) && text_eq xs ys

pub text_eq_iff : (xs ys : Text) → (text_eq xs ys ≡ true) ↔ (xs ≡ ys)
unfolding text_eq
text_eq_iff [] [] = ground arith
text_eq_iff [] (y ∷ ys) = ground arith
text_eq_iff (x ∷ xs) [] = ground arith
text_eq_iff (x ∷ xs) (y ∷ ys) = ground (arith, text_eq_iff xs ys)

-- `HashSet::contains`, `Vec::contains`.
unfoldable pub text_mem : Text → List Text → Bool
text_mem t [] = false
text_mem t (x ∷ xs) = text_eq x t || text_mem t xs

abbrev pub is_empty {ℓ} : {A : Type ℓ} → List A → Bool
is_empty [] = true
is_empty (x ∷ xs) = false

-- Unicode's `White_Space`, by which `char::is_whitespace` decides.
unfoldable pub is_whitespace : ℕ → Bool
is_whitespace c =
    (leb 9 c && leb c 13)
    || (c == 32)
    || (c == 133)
    || (c == 160)
    || (c == 5760)
    || (leb 8192 c && leb c 8202)
    || (c == 8232)
    || (c == 8233)
    || (c == 8239)
    || (c == 8287)
    || (c == 12288)

-- `str::trim().is_empty()`.
unfoldable pub is_blank : Text → Bool
unfolding is_whitespace
is_blank [] = true
is_blank (c ∷ cs) = is_whitespace c && is_blank cs

abbrev emit : Text → List Text → List Text
emit [] ws = ws
emit (c ∷ cs) ws = (c ∷ cs) ∷ ws

-- The words of a text, of which `word` has been read.
unfoldable pub words_from : Text → Text → List Text
unfolding is_whitespace
words_from word [] = emit word []
words_from word (c ∷ cs) =
    let next = emit word (words_from [] cs) in
    let same = words_from (word ++ c ∷ []) cs in if is_whitespace c then next else same

-- `str::split_whitespace`.
unfoldable pub split_whitespace : Text → List Text
unfolding words_from
split_whitespace t = words_from [] t

-- `[String]::join(" ")`.
unfoldable pub join_space : List Text → Text
join_space [] = []
join_space (w ∷ []) = w
join_space (w ∷ v ∷ ws) = w ++ (32 ∷ join_space (v ∷ ws))

-- What `split_whitespace` yields: words with no white space in them.
abbrev pub IsSolid : Text → Type 0
IsSolid w = All (λ c. is_whitespace c ≡ false) w

abbrev pub IsWord : Text → Type 0
IsWord w = IsSolid w × (is_empty w ≡ false)

IsSolid-snoc : (w : Text) (c : ℕ) → IsSolid w → is_whitespace c ≡ false → IsSolid (w ++ c ∷ [])
IsSolid-snoc [] c h e = (e, tt)
IsSolid-snoc (x ∷ w) c h e = (h.0, IsSolid-snoc w c h.1 e)

emit-IsWord : (w : Text) (ws : List Text) → IsSolid w → All IsWord ws → All IsWord (emit w ws)
emit-IsWord [] ws h k = k
emit-IsWord (c ∷ w) ws h k = ((h, refl), k)

words_from-IsWord : (w t : Text) → IsSolid w → All IsWord (words_from w t)
unfolding words_from
words_from-IsWord w [] h = emit-IsWord w [] h tt
words_from-IsWord w (c ∷ cs) h =
    split (is_whitespace c) refl (emit-IsWord w (words_from [] cs) h (words_from-IsWord [] cs tt))
      (λ e. words_from-IsWord (w ++ c ∷ []) cs (IsSolid-snoc w c h e))
  where
    split :
        (b : Bool)
        → is_whitespace c ≡ b
        → All IsWord (emit w (words_from [] cs))
        → (is_whitespace c ≡ false → All IsWord (words_from (w ++ c ∷ []) cs))
        → All IsWord (if b then emit w (words_from [] cs) else words_from (w ++ c ∷ []) cs)
    split true e p q = p
    split false e p q = q e

pub split_whitespace-IsWord : (t : Text) → All IsWord (split_whitespace t)
unfolding split_whitespace
split_whitespace-IsWord t = words_from-IsWord [] t tt

words_from-append : (v w t : Text) → IsSolid w → words_from v (w ++ t) ≡ words_from (v ++ w) t
unfolding words_from
words_from-append v [] t h = rw (append-nil v) refl
words_from-append v (c ∷ w) t h =
    rw (h.0, words_from)
      (words_from-append (v ++ c ∷ []) w t h.1
        ∙ ap (λ u. words_from u t) (append_assoc v (c ∷ []) w))

emit_word : (w : Text) (ws : List Text) → is_empty w ≡ false → emit w ws ≡ w ∷ ws
emit_word [] ws h = cc
emit_word (c ∷ w) ws h = refl

words_from-word : (w : Text) → IsWord w → words_from [] w ≡ w ∷ []
unfolding words_from
words_from-word w h =
    ap (words_from []) (sym (append-nil w)) ∙ words_from-append [] w [] h.0 ∙ emit_word w [] h.1

words_from-space : (w t : Text) → IsWord w → words_from [] (w ++ (32 ∷ t)) ≡ w ∷ words_from [] t
unfolding words_from
words_from-space w t h = words_from-append [] w (32 ∷ t) h.0 ∙ emit_word w (words_from [] t) h.1

-- Joining words by single spaces loses none of them.
pub split_whitespace-join_space :
    (ws : List Text) → All IsWord ws → split_whitespace (join_space ws) ≡ ws
unfolding split_whitespace join_space words_from
split_whitespace-join_space [] h = refl
split_whitespace-join_space (w ∷ []) h = words_from-word w h.0
split_whitespace-join_space (w ∷ v ∷ ws) h =
    words_from-space w (join_space (v ∷ ws)) h.0
    ∙ ap (◌∷◌ w) (split_whitespace-join_space (v ∷ ws) h.1)

-- `split_whitespace().collect::<Vec<_>>().join(" ")`
unfoldable pub collapse_whitespace : Text → Text
unfolding split_whitespace join_space
collapse_whitespace t = join_space (split_whitespace t)

pub collapse_whitespace_idem :
    (t : Text) → collapse_whitespace (collapse_whitespace t) ≡ collapse_whitespace t
unfolding collapse_whitespace
collapse_whitespace_idem t =
    ap join_space (split_whitespace-join_space (split_whitespace t) (split_whitespace-IsWord t))

-- `HashSet::contains` decides membership.
pub text_mem-append :
    (t : Text) (xs ys : List Text) → text_mem t (xs ++ ys) ≡ (text_mem t xs || text_mem t ys)
unfolding text_mem
text_mem-append t [] ys = refl
text_mem-append t (x ∷ xs) ys = ground (arith, text_mem-append t xs ys)

length-join_space-emit :
    (w : Text) (ws : List Text)
    → length (join_space (emit w ws)) ≤ length w + 1 + length (join_space ws)
unfolding join_space
length-join_space-emit [] ws = omega arith
length-join_space-emit (c ∷ w) [] = omega arith
length-join_space-emit (c ∷ w) (v ∷ ws) = omega (arith, length-append w (32 ∷ join_space (v ∷ ws)))

length-words_from : (w t : Text) → length (join_space (words_from w t)) ≤ length w + length t
unfolding words_from
length-words_from [] [] = unfold join_space in omega arith
length-words_from (c ∷ w) [] = unfold join_space in omega arith
length-words_from w (c ∷ cs) = elim (Bool-cases (is_whitespace c)) [
  | inl e ↦
      rw e (omega (arith, length-join_space-emit w (words_from [] cs), length-words_from [] cs))
  | inr e ↦ rw e (omega (arith, length-words_from (w ++ c ∷ []) cs, length-append w (c ∷ [])))
]

-- Collapsing white space adds no characters.
pub length-collapse_whitespace : (t : Text) → length (collapse_whitespace t) ≤ length t
unfolding collapse_whitespace
length-collapse_whitespace t = omega (arith, length-words_from [] t)

pub text_eq_comm : (s t : Text) → text_eq s t ≡ text_eq t s
text_eq_comm s t = ground (arith, text_eq_iff s t, text_eq_iff t s)

pub text_eq_refl : (t : Text) → text_eq t t ≡ true
text_eq_refl t = (text_eq_iff t t).1 refl
