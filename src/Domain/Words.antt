-- ===== src/Domain/Words.antt =====
-- " ".join(s.split()): the words of a text, and the text that they make.
use Prim.Native.Char.{code}
use text.Mathlib.TextLemmas.{nil-append, cons-append, append-nil}
use myota_platform.Base.{
  String, List, [], if◌then◌else◌, ◌∷◌, Bool, ◌≡◌, All, true, false, not, Bool-cases, refl, ◌&&◌,
  inr, inl, arith,
}
use myota_platform.Base.Text.{is_space, is_empty, concat, rstrip, lstrip, strip}

-- a word that has begun, and the words after it
abbrev pub pushed : String × List String → List String
pushed (word, words) = if is_empty word then words else word ∷ words

-- s before the first white space, and the words after it
unfoldable pub chunks : String → String × List String
chunks String.[] = (String.[], [])
chunks (String.◌∷◌ c s) =
    let (word, words) = chunks s in
    if is_space (code c) then (String.[], pushed (word, words)) else (String.◌∷◌ c word, words)

-- s.split()
unfoldable pub split : String → List String
unfolding chunks
split s = pushed (chunks s)

-- " ".join(words)
unfoldable pub join : List String → String
join [] = String.[]
join (w ∷ []) = w
join (w ∷ v ∷ ws) = concat w (concat " " (join (v ∷ ws)))

-- a word: not empty, and without white space
unfoldable pub spaceless : String → Bool
spaceless String.[] = true
spaceless (String.◌∷◌ c s) = not (is_space (code c)) && spaceless s

abbrev pub IsWord : String → Type 0
IsWord w = (is_empty w ≡ false) × (spaceless w ≡ true)

pushed-IsWord :
    (w : String) (ws : List String)
    → spaceless w ≡ true
    → All IsWord ws
    → All IsWord (pushed (w, ws))
pushed-IsWord String.[] ws h rest = rest
pushed-IsWord (String.◌∷◌ c w) ws h rest = ((refl, h), rest)

chunks-IsWord : (s : String) → (spaceless (chunks s).0 ≡ true) × All IsWord (chunks s).1
unfolding chunks spaceless
chunks-IsWord String.[] = (refl, tt)
chunks-IsWord (String.◌∷◌ c s) =
    let (first_word, others) = chunks-IsWord s in
    elim (Bool-cases (is_space (code c))) [
      | inr e ↦ rw (chunks, e) (ground (arith, first_word, e), others)
      | inl e ↦ rw (chunks, e) (refl, pushed-IsWord (chunks s).0 (chunks s).1 first_word others)
    ]

pub split-IsWord : (s : String) → All IsWord (split s)
unfolding split
split-IsWord s = pushed-IsWord (chunks s).0 (chunks s).1 (chunks-IsWord s).0 (chunks-IsWord s).1

chunks-space : (t : String) → chunks (concat " " t) ≡ ("", split t)
unfolding chunks split is_space
chunks-space t = rw (cons-append, nil-append) refl

-- a word in front of a text that starts with a space
chunks-word : (w t : String) → spaceless w ≡ true → chunks (concat w (concat " " t)) ≡ (w, split t)
unfolding chunks spaceless
chunks-word String.[] t h = rw (nil-append (concat " " t)) (chunks-space t)
chunks-word (String.◌∷◌ c w) t h =
    rw (cons-append c w (concat " " t)) (ground (arith, chunks-word w t))

chunks-last : (w : String) → spaceless w ≡ true → chunks w ≡ (w, [])
unfolding chunks spaceless
chunks-last String.[] h = refl
chunks-last (String.◌∷◌ c w) h = ground (arith, chunks-last w)

-- The words that are joined are split again.
pub split-join : (ws : List String) → All IsWord ws → split (join ws) ≡ ws
unfolding split join
split-join [] h = unfold chunks in refl
split-join (w ∷ []) h = rw (chunks-last w h.0.1) (ground (arith, h.0.0))
split-join (w ∷ v ∷ ws) h =
    rw (chunks-word w (join (v ∷ ws)) h.0.1) (ground (arith, h.0.0, split-join (v ∷ ws) h.1))

rstrip-spaceless : (w : String) → spaceless w ≡ true → rstrip w ≡ w
unfolding rstrip spaceless
rstrip-spaceless String.[] h = refl
rstrip-spaceless (String.◌∷◌ c w) h = ground (arith, rstrip-spaceless w)

-- a text with nothing to strip at its end, behind another one
rstrip-concat :
    (s t : String) → rstrip t ≡ t → is_empty t ≡ false → rstrip (concat s t) ≡ concat s t
unfolding rstrip
rstrip-concat String.[] t h n = rw (nil-append t) h
rstrip-concat (String.◌∷◌ c s) t h n =
    rw (cons-append c s t) (ground (arith, rstrip-concat s t h n, nonempty s t n))
  where
    nonempty : (s t : String) → is_empty t ≡ false → is_empty (concat s t) ≡ false
    nonempty String.[] t n = rw (nil-append t) n
    nonempty (String.◌∷◌ c s) t n = rw (cons-append c s t) refl

pub join-nonempty :
    (w : String) (ws : List String) → is_empty w ≡ false → is_empty (join (w ∷ ws)) ≡ false
unfolding join
join-nonempty w [] n = n
join-nonempty String.[] (v ∷ ws) n = ground arith
join-nonempty (String.◌∷◌ c w) (v ∷ ws) n = rw (cons-append c w) refl

rstrip-join : (ws : List String) → All IsWord ws → rstrip (join ws) ≡ join ws
unfolding join
rstrip-join [] h = unfold rstrip in refl
rstrip-join (w ∷ []) h = rstrip-spaceless w h.0.1
rstrip-join (w ∷ v ∷ ws) h =
    let rest = rstrip-join (v ∷ ws) h.1 in
    let full = join-nonempty v ws h.1.0.0 in
    rstrip-concat w (concat " " (join (v ∷ ws))) (rstrip-concat " " (join (v ∷ ws)) rest full)
      (rw cons-append refl)

lstrip-word : (w t : String) → IsWord w → lstrip (concat w t) ≡ concat w t
unfolding lstrip spaceless
lstrip-word String.[] t h = ground arith
lstrip-word (String.◌∷◌ c w) t h = rw (cons-append c w t) (ground arith)

lstrip-join : (ws : List String) → All IsWord ws → lstrip (join ws) ≡ join ws
unfolding join
lstrip-join [] h = unfold lstrip in refl
lstrip-join (w ∷ []) h = rw (← append-nil w) (lstrip-word w "" h.0)
lstrip-join (w ∷ v ∷ ws) h = lstrip-word w (concat " " (join (v ∷ ws))) h.0

-- Joined words have nothing to strip.
pub strip-join : (ws : List String) → All IsWord ws → strip (join ws) ≡ join ws
unfolding strip
strip-join ws h = rw (rstrip-join ws h) (lstrip-join ws h)
