-- ===== src/Agent/Init/Paths.antt =====
-- src/agent/init.rs, `symlink_subdir`: where the components of a path without `..` lead.
use pulumi_rs_kube_operator.Base.{
  ℕ, true, false, List, [], ◌∷◌, ◌++◌, append_assoc, Text, text_eq, text_eq→eq, if_elim, sym, ◌∙◌,
  contains, starts_with, strip_prefix, if◌then◌else◌, ◌==◌, ◌≡◌, refl, arith, Bool-cases, inl, inr,
  subst,
}

-- A character in front of the first component.
abbrev pub in_front : ℕ → List Text → List Text
in_front c [] = (c ∷ []) ∷ []
in_front c (name ∷ names) = (c ∷ name) ∷ names

-- The components of a path, which are separated by slashes.
abbrev pub components : Text → List Text
components [] = [] ∷ []
components (c ∷ cs) = if c == b'/' then [] ∷ components cs else in_front c (components cs)

abbrev pub parent : Text
parent = b'.' ∷ b'.' ∷ []

abbrev pub up_from : List Text → List Text
up_from [] = []
up_from (name ∷ dir) = dir

-- The directory that the components lead to, without links, from a directory that is given by the
-- names on the way to it, the last one first.
abbrev pub walk : List Text → List Text → List Text
walk dir [] = dir
walk dir (name ∷ names) =
    walk
      (if text_eq name parent
        then up_from dir
        else if text_eq name (b'.' ∷ [])
        then dir
        else if text_eq name []
        then dir
        else name ∷ dir)
      names

abbrev pub NoParent : List Text → Type 0
NoParent [] = Unit {0}
NoParent (name ∷ names) = (contains name parent ≡ false) × NoParent names

-- The first component is where the text starts.
abbrev head_of : List Text → Text
head_of [] = []
head_of (name ∷ names) = name

head_of-in_front : (c : ℕ) (names : List Text) → head_of (in_front c names) ≡ c ∷ head_of names
head_of-in_front c [] = refl
head_of-in_front c (name ∷ names) = refl

starts-head :
    (needle d : Text)
    → starts_with needle (head_of (components d)) ≡ true
    → starts_with needle d ≡ true
unfolding starts_with strip_prefix
starts-head [] d h = refl
starts-head (p ∷ ps) [] h = h
starts-head (p ∷ ps) (c ∷ cs) h = elim (Bool-cases (c == b'/')) [
  | inl slash ↦ let h' = rw (slash) at h in absurd (ground arith)
  | inr other ↦
      let h' = rw (other, head_of-in_front c (components cs)) at h in
      ground (arith, starts-head ps cs)
]

starts-head_false :
    (needle d : Text)
    → starts_with needle d ≡ false
    → starts_with needle (head_of (components d)) ≡ false
starts-head_false needle d h = elim (Bool-cases (starts_with needle (head_of (components d)))) [
  | inl e ↦ let e' = starts-head needle d e in absurd (ground arith)
  | inr e ↦ e
]

in_front-NoParent :
    (c : ℕ) (names : List Text)
    → starts_with parent (head_of (in_front c names)) ≡ false
    → NoParent names
    → NoParent (in_front c names)
unfolding contains starts_with strip_prefix
in_front-NoParent c [] h n = ground arith
in_front-NoParent c (name ∷ names) h (n, ns) = (ground arith, ns)

pub components-NoParent : (d : Text) → contains d parent ≡ false → NoParent (components d)
unfolding contains
components-NoParent [] n = (n, tt)
components-NoParent (c ∷ cs) n = elim (Bool-cases (c == b'/')) [
  | inl slash ↦ rw slash (refl, components-NoParent cs (ground arith))
  | inr other ↦ rw other (
      in_front-NoParent c (components cs)
        (rw other at (starts-head_false parent (c ∷ cs) (ground arith)))
        (components-NoParent cs (ground arith)))
]

named : (name : Text) → contains name parent ≡ false → text_eq name parent ≡ false
unfolding contains starts_with strip_prefix
named name n = elim (Bool-cases (text_eq name parent)) [
  | inl e ↦
      let n' = subst (λ s. contains s parent ≡ false) (text_eq→eq name parent e) n in
      absurd (ground arith)
  | inr e ↦ e
]

-- The directory lies below another one.
abbrev pub Below : List Text → List Text → Type 0
Below dir base = (down : List Text) × (dir ≡ down ++ base)

walk-step :
    (dir : List Text) (name : Text) (names : List Text)
    → Below (walk dir names) dir
    → Below (walk (name ∷ dir) names) (name ∷ dir)
    → Below
        (walk
          (if text_eq name (b'.' ∷ []) then dir else if text_eq name [] then dir else name ∷ dir)
          names)
        dir
walk-step dir name names stay (down, e) =
    if_elim (λ d. Below (walk d names) dir) (text_eq name (b'.' ∷ [])) (λ _. stay)
      (λ _.
        if_elim (λ d. Below (walk d names) dir) (text_eq name []) (λ _. stay)
          (λ _. (down ++ name ∷ [], e ∙ sym (append_assoc down (name ∷ []) dir))))

pub walk-Below : (dir names : List Text) → NoParent names → Below (walk dir names) dir
walk-Below dir [] n = ([], refl)
walk-Below dir (name ∷ names) (n, ns) =
    rw (named name n)
      (walk-step dir name names (walk-Below dir names ns) (walk-Below (name ∷ dir) names ns))
