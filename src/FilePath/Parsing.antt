-- ===== src/FilePath/Parsing.antt =====
-- Parse and String of path/path.go, and Within.
use storrent.Prelude.{
  ℕ, ◌≡◌, ◌≢◌, refl, inl, inr, ◌↔◌, true, false, List, [], ◌∷◌, ◌++◌, leb, ◌==◌, length,
  length-append, arith, All, Bool-cases, ap, ◌∙◌,
}
use storrent.FilePath.{
  slash, join, onto_first, split, is_empty, trim_first, keep, trim_last, parse, string_eq,
  starts_with, within,
}

-- A component has no slash.
abbrev pub NoSlash : List ℕ → Type 0
NoSlash = All (λ x. x ≢ slash)

abbrev pub Starts : List (List ℕ) → Type 0
Starts [] = Unit
Starts (c ∷ p) = c ≢ []

-- The last component is not empty.
abbrev pub Stops : List (List ℕ) → Type 0
Stops [] = Unit
Stops (c ∷ []) = c ≢ []
Stops (c ∷ d ∷ p) = Stops (d ∷ p)

-- No component has a slash, and neither the first nor the last one is empty.
abbrev pub IsPath : List (List ℕ) → Type 0
IsPath p = All NoSlash p × Starts p × Stops p

is_empty-true : (c : List ℕ) → is_empty c ≡ true → c ≡ []
is_empty-true [] e = refl
is_empty-true (x ∷ c) e = cc

is_empty-false : (c : List ℕ) → is_empty c ≡ false → c ≢ []
is_empty-false c e h = cc (e, ap is_empty h)

is_empty_of_full : (c : List ℕ) → c ≢ [] → is_empty c ≡ false
is_empty_of_full [] h = absurd (h refl)
is_empty_of_full (x ∷ c) h = refl

trim_first-Starts : (p : List (List ℕ)) → Starts (trim_first p)
unfolding trim_first
trim_first-Starts [] = tt
trim_first-Starts (c ∷ p) = elim (Bool-cases (is_empty c)) [
  | inl e ↦ rw e (trim_first-Starts p)
  | inr e ↦ rw e (is_empty-false c e)
]

trim_first_of_Starts : (p : List (List ℕ)) → Starts p → trim_first p ≡ p
unfolding trim_first
trim_first_of_Starts [] s = refl
trim_first_of_Starts (c ∷ p) s = rw (is_empty_of_full c s) refl

keep-Starts : (c : List ℕ) (p : List (List ℕ)) → c ≢ [] → Starts (keep c p)
keep-Starts c [] s = rw (is_empty_of_full c s) s
keep-Starts c (d ∷ p) s = s

trim_last-Starts : (p : List (List ℕ)) → Starts p → Starts (trim_last p)
unfolding trim_last
trim_last-Starts [] s = tt
trim_last-Starts (c ∷ p) s = keep-Starts c (trim_last p) s

split-append : (c : List ℕ) (f : List ℕ) → NoSlash c → split (c ++ (slash ∷ f)) ≡ c ∷ split f
unfolding split
split-append [] f ok = refl
split-append (x ∷ c) f (h, ok) = ground (arith, split-append c f ok)

split_whole : (c : List ℕ) → NoSlash c → split c ≡ c ∷ []
unfolding split
split_whole [] ok = refl
split_whole (x ∷ c) (h, ok) = ground (arith, split_whole c ok)

split-join : (c : List ℕ) (p : List (List ℕ)) → All NoSlash (c ∷ p) → split (join (c ∷ p)) ≡ c ∷ p
unfolding join
split-join c [] (ok, oks) = split_whole c ok
split-join c (d ∷ p) (ok, oks) =
    split-append c (join (d ∷ p)) ok ∙ ap (λ r. c ∷ r) (split-join d p oks)

split-NoSlash : (f : List ℕ) → All NoSlash (split f)
unfolding split
split-NoSlash [] = (tt, tt)
split-NoSlash (x ∷ f) = elim (Bool-cases (x == slash)) [
  | inl cut ↦ rw cut (tt, split-NoSlash f)
  | inr other ↦ rw other (onto_first-NoSlash x (split f) (λ h. ground arith) (split-NoSlash f))
]
  where
    onto_first-NoSlash :
        (x : ℕ) (p : List (List ℕ)) → x ≢ slash → All NoSlash p → All NoSlash (onto_first x p)
    onto_first-NoSlash x [] h ok = ((h, tt), tt)
    onto_first-NoSlash x (c ∷ p) h (ok, oks) = ((h, ok), oks)

trim_first-NoSlash : (p : List (List ℕ)) → All NoSlash p → All NoSlash (trim_first p)
unfolding trim_first
trim_first-NoSlash [] ok = tt
trim_first-NoSlash (c ∷ p) (ok, oks) = elim (Bool-cases (is_empty c)) [
  | inl e ↦ rw e (trim_first-NoSlash p oks)
  | inr e ↦ rw e (ok, oks)
]

keep-NoSlash : (c : List ℕ) (p : List (List ℕ)) → NoSlash c → All NoSlash p → All NoSlash (keep c p)
keep-NoSlash c [] ok oks = elim (Bool-cases (is_empty c)) [
  | inl e ↦ rw e tt
  | inr e ↦ rw e (ok, tt)
]
keep-NoSlash c (d ∷ p) ok oks = (ok, oks)

trim_last-NoSlash : (p : List (List ℕ)) → All NoSlash p → All NoSlash (trim_last p)
unfolding trim_last
trim_last-NoSlash [] ok = tt
trim_last-NoSlash (c ∷ p) (ok, oks) = keep-NoSlash c (trim_last p) ok (trim_last-NoSlash p oks)

trim_last-Stops : (p : List (List ℕ)) → Stops (trim_last p)
unfolding trim_last
trim_last-Stops [] = tt
trim_last-Stops (c ∷ p) = kept (trim_last p) (trim_last-Stops p)
  where
    kept : (q : List (List ℕ)) → Stops q → Stops (keep c q)
    kept [] s = elim (Bool-cases (is_empty c)) [
      | inl e ↦ rw e tt
      | inr e ↦ rw e (is_empty-false c e)
    ]
    kept (d ∷ q) s = s

trim_last_of_Stops : (p : List (List ℕ)) → Stops p → trim_last p ≡ p
unfolding trim_last
trim_last_of_Stops [] s = refl
trim_last_of_Stops (c ∷ []) s = rw (is_empty_of_full c s) refl
trim_last_of_Stops (c ∷ d ∷ p) s = ap (keep c) (trim_last_of_Stops (d ∷ p) s)

-- Parse reads back the path that String prints.
parse-join : (p : List (List ℕ)) → IsPath p → parse (join p) ≡ p
unfolding parse
parse-join [] ok = unfold join in refl
parse-join (c ∷ p) (plain, first, last) =
    ap (λ r. trim_last (trim_first r)) (split-join c p plain)
    ∙ ap trim_last (trim_first_of_Starts (c ∷ p) first)
    ∙ trim_last_of_Stops (c ∷ p) last

parse-IsPath : (f : List ℕ) → IsPath (parse f)
unfolding parse
parse-IsPath f =
    let p : List (List ℕ) = trim_first (split f) in
    (
      trim_last-NoSlash p (trim_first-NoSlash (split f) (split-NoSlash f)),
      trim_last-Starts p (trim_first-Starts (split f)),
      trim_last-Stops p,
    )

-- Parse gives a path in which no component has a slash and neither the first nor the last one is
-- empty, whatever the text; and each such path is read back from what String prints of it.
pub parse-join-IsPath :
    (f : List ℕ) (p : List (List ℕ)) → IsPath p → (parse (join p) ≡ p) × IsPath (parse f)
parse-join-IsPath f p ok = (parse-join p ok, parse-IsPath f)

string_eq-true : (a b : List ℕ) → string_eq a b ≡ true → a ≡ b
unfolding string_eq
string_eq-true [] [] e = refl
string_eq-true [] (y ∷ b) e = cc
string_eq-true (x ∷ a) [] e = cc
string_eq-true (x ∷ a) (y ∷ b) e = ground (arith, string_eq-true a b)

string_eq_refl : (a : List ℕ) → string_eq a a ≡ true
unfolding string_eq
string_eq_refl [] = refl
string_eq_refl (x ∷ a) = ground (arith, string_eq_refl a)

starts_with-append : (d e : List (List ℕ)) → starts_with (d ++ e) d ≡ true
unfolding starts_with
starts_with-append [] e = refl
starts_with-append (c ∷ d) e = rw (string_eq_refl c) (starts_with-append d e)

starts_with-drop :
    (p d : List (List ℕ)) → starts_with p d ≡ true → (e : List (List ℕ)) × (p ≡ d ++ e)
unfolding starts_with
starts_with-drop p [] h = (p, refl)
starts_with-drop [] (c ∷ d) h = cc
starts_with-drop (b ∷ p) (c ∷ d) h = elim (Bool-cases (string_eq b c)) [
  | inl eq ↦
      let (e, rest) = starts_with-drop p d (ground (arith, rw eq at h)) in
      (e, cc (string_eq-true b c eq, rest))
  | inr ne ↦ absurd (ground (arith, rw ne at h))
]

-- Within holds exactly for what lies below the directory: its path and at least a component more.
pub within_iff :
    (p d : List (List ℕ))
    → (within p d ≡ true) ↔ ((c : List ℕ) × (e : List (List ℕ)) × (p ≡ d ++ (c ∷ e)))
unfolding within
within_iff p d = (
  λ h. elim (Bool-cases (leb (length p) (length d))) [
    | inl short ↦ absurd (ground (arith, rw short at h))
    | inr long ↦
        let (e, split) = starts_with-drop p d (ground (arith, rw long at h)) in more e split long
  ],
  λ h. below h.0 h.1 h.2,
)
  where
    more :
        (e : List (List ℕ))
        → p ≡ d ++ e
        → leb (length p) (length d) ≡ false
        → (c : List ℕ) × (e : List (List ℕ)) × (p ≡ d ++ (c ∷ e))
    more [] split long = absurd (ground (arith, ap (λ q. length q) split, length-append d []))
    more (c ∷ e) split long = (c, e, split)

    below : (c : List ℕ) (e : List (List ℕ)) → p ≡ d ++ (c ∷ e) → within p d ≡ true
    below c e split =
        let long : leb (length p) (length d) ≡ false =
          ground (arith, ap (λ q. length q) split, length-append d (c ∷ e)) in
        rw long (ap (λ q. starts_with q d) split ∙ starts_with-append d (c ∷ e))
