-- ===== src/Text/Laws.antt =====
-- Laws of the text functions: searching, reading lines, words and leading blanks.
use mathlib.Core.Option
use reverse_proxy_server.Base.{
  ℕ, zero, suc, ◌+◌, ◌≤◌, ◌≡◌, ◌≢◌, inl, inr, refl, ap, true, false, not, [], ◌∷◌, ◌++◌, Option,
  none, some, arith, All, take, drop, length, append-nil, Bool-cases,
}
use reverse_proxy_server.Text.{
  Bytes, starts_with, find, find_byte, is_space, skip_while, take_while, next_word, lines, pop_cr,
}

-- No byte of the text is `c`.
abbrev pub Free : ℕ → Bytes → Type 0
Free c = All (λ x. x ≢ c)

pub Free-append : (c : ℕ) (a b : Bytes) → Free c a → Free c b → Free c (a ++ b)
Free-append c [] b ha hb = hb
Free-append c (x ∷ a) b ha hb = (ha.0, Free-append c a b ha.1 hb)

-- A text that `>>` reads whole: not empty, without white space.
pub record IsWord (w : Bytes) : Type 0 where
  pub solid : All (λ c. is_space c ≡ false) w
  pub ne_nil : w ≢ []

pub Free-solid : (w : Bytes) → All (λ c. is_space c ≡ false) w → Free 10 w
Free-solid [] h = tt
Free-solid (c ∷ w) h = (λ e. unfold is_space in ground (arith, h.0), Free-solid w h.1)

-- A line without a newline is read back in front of what follows it.
pub lines_line : (l s : Bytes) → Free 10 l → lines (l ++ 10 ∷ s) ≡ l ∷ lines s
unfolding lines
lines_line [] s h = refl
lines_line (c ∷ l) s h = ground (arith, lines_line l s h.1)

pub pop_cr-crlf : (l : Bytes) → pop_cr (l ++ 13 ∷ []) ≡ l
unfolding pop_cr
pop_cr-crlf [] = refl
pop_cr-crlf (x ∷ []) = refl
pop_cr-crlf (x ∷ y ∷ l) = ap (◌∷◌ x) (pop_cr-crlf (y ∷ l))

take_while_solid :
    (w s : Bytes)
    → All (λ c. is_space c ≡ false) w
    → take_while (λ c. not (is_space c)) (w ++ 32 ∷ s) ≡ w
unfolding take_while
take_while_solid [] s h = unfold is_space in refl
take_while_solid (c ∷ w) s h = rw h.0 (ap (◌∷◌ c) (take_while_solid w s h.1))

take_while_end :
    (w : Bytes) → All (λ c. is_space c ≡ false) w → take_while (λ c. not (is_space c)) w ≡ w
unfolding take_while
take_while_end [] h = refl
take_while_end (c ∷ w) h = rw h.0 (ap (◌∷◌ c) (take_while_end w h.1))

skip_while_solid :
    (w s : Bytes)
    → All (λ c. is_space c ≡ false) w
    → skip_while (λ c. not (is_space c)) (w ++ 32 ∷ s) ≡ 32 ∷ s
unfolding skip_while
skip_while_solid [] s h = unfold is_space in refl
skip_while_solid (c ∷ w) s h = rw h.0 (skip_while_solid w s h.1)

skip_while_end :
    (w : Bytes) → All (λ c. is_space c ≡ false) w → skip_while (λ c. not (is_space c)) w ≡ []
unfolding skip_while
skip_while_end [] h = refl
skip_while_end (c ∷ w) h = rw h.0 (skip_while_end w h.1)

skip_while_word : (w s : Bytes) → IsWord w → skip_while is_space (w ++ s) ≡ w ++ s
unfolding skip_while
skip_while_word [] s h = absurd (h.ne_nil refl)
skip_while_word (c ∷ w) s h = rw (h.solid.0)

-- `>>` takes a word up to the next space, and the last word up to the end.
pub next_word_space : (w s : Bytes) → IsWord w → next_word (w ++ 32 ∷ s) ≡ (w, 32 ∷ s)
unfolding next_word
next_word_space w s h =
    rw (skip_while_word w (32 ∷ s) h, take_while_solid w s h.solid, skip_while_solid w s h.solid)

pub next_word_end : (w : Bytes) → IsWord w → next_word w ≡ (w, [])
unfolding next_word
next_word_end w h = rw (
  ← append-nil w,
  skip_while_word w [] h,
  append-nil w,
  take_while_end w h.solid,
  skip_while_end w h.solid,
)

pub next_word_skip : (s : Bytes) → next_word (32 ∷ s) ≡ next_word s
unfolding next_word skip_while is_space
next_word_skip s = refl

-- A field name ends at the first colon.
pub find_byte_append : (c : ℕ) (a s : Bytes) → Free c a → find_byte c (a ++ c ∷ s) ≡ some (length a)
unfolding find_byte
find_byte_append c [] s h = ground arith
find_byte_append c (x ∷ a) s h = ground (arith, find_byte_append c a s h.1)

pub take-length : (a s : Bytes) → take (length a) (a ++ s) ≡ a
take-length [] s = refl
take-length (x ∷ a) s = ap (◌∷◌ x) (take-length a s)

pub drop-length : (a s : Bytes) → drop (length a) (a ++ s) ≡ s
drop-length [] s = refl
drop-length (x ∷ a) s = drop-length a s

starts_with-append :
    (p s t : Bytes) → length p ≤ length s → starts_with p (s ++ t) ≡ starts_with p s
unfolding starts_with
starts_with-append [] s t h = refl
starts_with-append (x ∷ p) [] t h = absurd (omega arith)
starts_with-append (x ∷ p) (y ∷ s) t h = ground (arith, starts_with-append p s t)

starts_with-length : (p s : Bytes) → starts_with p s ≡ true → length p ≤ length s
unfolding starts_with
starts_with-length [] s h = omega arith
starts_with-length (x ∷ p) [] h = cc
starts_with-length (x ∷ p) (y ∷ s) h = ground (arith, starts_with-length p s)

abbrev Within : Bytes → Bytes → Option ℕ → Type 0
Within p s none = Unit
Within p s (some i) = i + length p ≤ length s

find-Within : (p s : Bytes) → Within p s (find p s)
unfolding find
find-Within [] [] = omega arith
find-Within (x ∷ p) [] = tt
find-Within p (y ∷ s) = elim (Bool-cases (starts_with p (y ∷ s))) [
  | inl e ↦ rw e (omega (arith, starts_with-length p (y ∷ s) e))
  | inr e ↦ rw e (behind (find p s) (find-Within p s))
]
  where
    behind : (o : Option ℕ) → Within p s o → Within p (y ∷ s) (Option.map suc o)
    behind none w = tt
    behind (some j) w = omega arith

-- A text that is found lies within the searched one.
pub find-le : (p s : Bytes) (i : ℕ) → find p s ≡ some i → i + length p ≤ length s
find-le p s i h = rw h at (find-Within p s)

-- The first place of a text does not move when more is read behind it.
pub find-append : (p s t : Bytes) (i : ℕ) → find p s ≡ some i → find p (s ++ t) ≡ some i
unfolding find
find-append [] [] [] i h = h
find-append [] [] (y ∷ t) i h = unfold starts_with in h
find-append (x ∷ p) [] t i h = cc
find-append p (y ∷ s) t i h =
    rw (starts_with-append p (y ∷ s) t room) (elim (Bool-cases (starts_with p (y ∷ s))) [
      | inl e ↦ rw e (rw e at h)
      | inr e ↦ rw e (behind (λ j. find-append p s t j) (find p s) refl (rw e at h))
    ])
  where
    room : length p ≤ suc (length s)
    room = let w = find-le p (y ∷ s) i h in omega arith

    behind :
        ((j : ℕ) → find p s ≡ some j → find p (s ++ t) ≡ some j)
        → (o : Option ℕ) → find p s ≡ o
        → Option.map suc o ≡ some i
        → Option.map suc (find p (s ++ t)) ≡ some i
    behind ih none f g = cc
    behind ih (some j) f g = rw (ih j f) g

-- A prefix that lies in `a` is a prefix of whatever `a` starts.
pub take-append : (n : ℕ) (a b : Bytes) → n ≤ length a → take n (a ++ b) ≡ take n a
take-append zero a b h = refl
take-append (suc n) [] b h = absurd (omega arith)
take-append (suc n) (x ∷ a) b h = ap (◌∷◌ x) (take-append n a b (omega arith))

pub drop-append : (n : ℕ) (a b : Bytes) → n ≤ length a → drop n (a ++ b) ≡ drop n a ++ b
drop-append zero a b h = refl
drop-append (suc n) [] b h = absurd (omega arith)
drop-append (suc n) (x ∷ a) b h = drop-append n a b (omega arith)
