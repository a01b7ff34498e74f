-- ===== src/StringUtil/Splitting.antt =====
-- What `split` gives back of the strings that `join` put together.
use homa.Base.{
  ℕ, zero, suc, if◌then◌else◌, subst, inl, inr, Bool-cases, ◌≤◌, ◌≡◌, ◌≢◌, refl, sym, ap, ◌∙◌,
  false, List, [], ◌∷◌, ◌++◌, append_assoc, arith, ◌==◌, ==_iff, ==_refl, length, All,
}
use homa.StringUtil.{Chars, join, get_line, split_loop, split}

-- A string without a character.
abbrev pub Lacks : ℕ → Chars → Type 0
Lacks c s = All (λ d. (d == c) ≡ false) s

get_line_at : (d : ℕ) (s t : Chars) → Lacks d s → get_line d (s ++ d ∷ t) ≡ (s, t)
unfolding get_line
get_line_at d [] t h = rw ==_refl
get_line_at d (c ∷ s) t h = cc (h.0, get_line_at d s t h.1)

get_line_end : (d : ℕ) (s : Chars) → Lacks d s → get_line d s ≡ (s, [])
unfolding get_line
get_line_end d [] h = refl
get_line_end d (c ∷ s) h = cc (h.0, get_line_end d s h.1)

length-get_line : (d : ℕ) (s : Chars) → length (get_line d s).1 ≤ length s
unfolding get_line
length-get_line d [] = omega arith
length-get_line d (c ∷ s) = ground (arith, length-get_line d s)

-- Any fuel from the length of the stream on gives the same items.
split_loop_fuel :
    (fuel : ℕ) (s : Chars) (d : ℕ)
    → length s ≤ fuel
    → (more : ℕ) → length s ≤ more
    → split_loop fuel s d ≡ split_loop more s d
unfolding split_loop get_line
split_loop_fuel zero [] d h zero k = refl
split_loop_fuel zero [] d h (suc more) k = refl
split_loop_fuel (suc fuel) [] d h zero k = refl
split_loop_fuel (suc fuel) [] d h (suc more) k = refl
split_loop_fuel zero (c ∷ s) d h more k = absurd (omega (arith, h))
split_loop_fuel (suc fuel) (c ∷ s) d h zero k = absurd (omega (arith, k))
split_loop_fuel (suc fuel) (c ∷ s) d h (suc more) k =
    let rest = get_line d (c ∷ s) in
    ap (λ items. rest.0 ∷ items)
      (split_loop_fuel fuel rest.1 d (ground (arith, length-get_line d s)) more
        (ground (arith, length-get_line d s)))

rest_shorter : (d c : ℕ) (s : Chars) → length (get_line d (c ∷ s)).1 ≤ length s
unfolding get_line
rest_shorter d c s = ground (arith, length-get_line d s)

-- A round of `split`.
split_cons :
    (d c : ℕ) (u s t : Chars) → get_line d (c ∷ u) ≡ (s, t) → split (c ∷ u) d ≡ s ∷ split t d
unfolding split split_loop
split_cons d c u s t e =
    let short : length t ≤ length u = omega (arith, rest_shorter d c u, ap (λ r. length r.1) e) in
    cc (e, split_loop_fuel (length u) t d short (length t) (omega arith))

-- An item before a delimiter.
pub split_at : (d : ℕ) (s t : Chars) → Lacks d s → split (s ++ d ∷ t) d ≡ s ∷ split t d
split_at d [] t h = split_cons d d t [] t (get_line_at d [] t h)
split_at d (c ∷ s) t h = split_cons d c (s ++ d ∷ t) (c ∷ s) t (get_line_at d (c ∷ s) t h)

-- The last item, which is not empty.
pub split_last : (d c : ℕ) (s : Chars) → Lacks d (c ∷ s) → split (c ∷ s) d ≡ (c ∷ s) ∷ []
unfolding split split_loop
split_last d c s h = split_cons d c s (c ∷ s) [] (get_line_end d (c ∷ s) h)

-- Strings that `split` can tell apart: no delimiter in them, and the last one is not empty.
abbrev pub AreItems : ℕ → List Chars → Type 0
AreItems d [] = Unit
AreItems d (s ∷ []) = Lacks d s × (s ≢ [])
AreItems d (s ∷ t ∷ ss) = Lacks d s × AreItems d (t ∷ ss)

-- Splitting what was joined with the delimiter gives the strings back.
pub split-join : (d : ℕ) (ss : List Chars) → AreItems d ss → split (join ss (d ∷ [])) d ≡ ss
unfolding join
split-join d [] h = unfold split split_loop in refl
split-join d ([] ∷ []) h = absurd (h.1 refl)
split-join d ((c ∷ s) ∷ []) h = split_last d c s h.0
split-join d (s ∷ t ∷ ss) h =
    split_at d s (join (t ∷ ss) (d ∷ [])) h.0 ∙ ap (λ us. s ∷ us) (split-join d (t ∷ ss) h.1)

-- A character in front of the first part.
abbrev pub with_char : ℕ → List Chars → List Chars
with_char c [] = (c ∷ []) ∷ []
with_char c (p ∷ ps) = (c ∷ p) ∷ ps

-- The parts of a string between delimiters: unlike `split`, with an empty part after the last one.
abbrev pub parts : ℕ → Chars → List Chars
parts d [] = [] ∷ []
parts d (c ∷ s) = if c == d then [] ∷ parts d s else with_char c (parts d s)

-- There is a part.
abbrev pub HasPart : List Chars → Type 0
HasPart ps = (p : Chars) × (rest : List Chars) × (ps ≡ p ∷ rest)

pub parts-HasPart : (d : ℕ) (s : Chars) → HasPart (parts d s)
parts-HasPart d [] = (_, _, refl)
parts-HasPart d (c ∷ s) = elim (Bool-cases (c == d)) [
  | inl e ↦ ([], parts d s, cc e)
  | inr e ↦ let (p, ps, f) = parts-HasPart d s in (c ∷ p, ps, cc (e, f))
]

join-with_char :
    (c : ℕ) (p : Chars) (ps : List Chars) (glue : Chars)
    → join ((c ∷ p) ∷ ps) glue ≡ c ∷ join (p ∷ ps) glue
unfolding join
join-with_char c p [] glue = refl
join-with_char c p (q ∷ ps) glue = refl

join-first : (d : ℕ) (ps : List Chars) → HasPart ps → join ([] ∷ ps) (d ∷ []) ≡ d ∷ join ps (d ∷ [])
unfolding join
join-first d [] (_, _, e) = cc e
join-first d (p ∷ ps) h = refl

pub join-parts : (d : ℕ) (s : Chars) → join (parts d s) (d ∷ []) ≡ s
join-parts d [] = unfold join in refl
join-parts d (c ∷ s) =
    let (p, ps, f) = parts-HasPart d s in
    elim (Bool-cases (c == d)) [
      | inl e ↦ cc (e, (==_iff c d).0 e, join-first d (parts d s) (p, ps, f), join-parts d s)
      | inr e ↦ cc (e, f, join-with_char c p ps (d ∷ []), join-parts d s)
    ]

-- Parts before a last string can be told apart.
AreItems-with_char :
    (d c : ℕ) (ps : List Chars) (last : Chars)
    → (c == d) ≡ false
    → HasPart ps
    → AreItems d (ps ++ last ∷ [])
    → AreItems d (with_char c ps ++ last ∷ [])
AreItems-with_char d c [] last e (_, _, f) h = absurd (cc f)
AreItems-with_char d c (p ∷ []) last e f h = ((e, h.0), h.1)
AreItems-with_char d c (p ∷ q ∷ ps) last e f h = ((e, h.0), h.1)

AreItems-first :
    (d : ℕ) (ps : List Chars) (last : Chars)
    → AreItems d (ps ++ last ∷ [])
    → AreItems d ([] ∷ (ps ++ last ∷ []))
AreItems-first d [] last h = (tt, h)
AreItems-first d (p ∷ ps) last h = (tt, h)

pub parts-AreItems :
    (d : ℕ) (s last : Chars) → Lacks d last → last ≢ [] → AreItems d (parts d s ++ last ∷ [])
parts-AreItems d [] last h n = (tt, (h, n))
parts-AreItems d (c ∷ s) last h n = elim (Bool-cases (c == d)) [
  | inl e ↦
      subst (λ b. AreItems d ((if b then [] ∷ parts d s else with_char c (parts d s)) ++ last ∷ []))
        (sym e) (AreItems-first d (parts d s) last (parts-AreItems d s last h n))
  | inr e ↦
      subst (λ b. AreItems d ((if b then [] ∷ parts d s else with_char c (parts d s)) ++ last ∷ []))
        (sym e)
        (AreItems-with_char d c (parts d s) last e (parts-HasPart d s)
          (parts-AreItems d s last h n))
]

pub join-last :
    (ps : List Chars) (last glue : Chars)
    → HasPart ps
    → join (ps ++ last ∷ []) glue ≡ join ps glue ++ (glue ++ last)
unfolding join
join-last [] last glue (_, _, e) = absurd (cc e)
join-last (p ∷ []) last glue h = refl
join-last (p ∷ q ∷ ps) last glue h = simp (join-last (q ∷ ps) last glue (_, _, refl), append_assoc)
