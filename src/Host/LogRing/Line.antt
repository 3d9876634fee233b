-- ===== src/Host/LogRing/Line.antt =====
-- What `hm2_log` makes of a message: a whole line that fits the array.
use driver_hostmot.Base.{
  ℕ, zero, suc, ◌+◌, ◌-◌, ◌≤◌, ◌≡◌, refl, ap, sym, ◌∙◌, Option, none, some, [], ◌∷◌, ◌++◌, Text,
  arith, leb, ltb, length, take, take_all, Bool-cases, inl, inr, length-append, if◌then◌else◌,
}
use driver_hostmot.Host.LogRing.{hm2_log_line, log_line}

take-append : (h m : Text) (n : ℕ) → length h ≤ n → take n (h ++ m) ≡ h ++ take (n - length h) m
take-append [] m n le = ap (λ k. take k m) (omega arith)
take-append (x ∷ h) m zero le = absurd (omega arith)
take-append (x ∷ h) m (suc n) le =
    ap (λ l. x ∷ l) (take-append h m n (omega arith) ∙ ap (λ k. h ++ take k m) (omega arith))

length-take_le : (n : ℕ) (m : Text) → (length (take n m) ≤ n) × (length (take n m) ≤ length m)
length-take_le zero m = omega arith
length-take_le (suc n) [] = omega arith
length-take_le (suc n) (x ∷ m) = omega (arith, length-take_le n m)

-- The buffer and the length, for a prefix that fits.
cut_whole :
    (h m : Text) (wanted : ℕ)
    → length h ≤ log_line - 2
    → wanted ≡ length h + length m
    → take
        (if ltb (log_line - 2) wanted then log_line - 2 else wanted)
        (h ++ take (log_line - length h - 1 - 1) m)
      ≡ take (log_line - 2) (h ++ m)
cut_whole h m wanted fits sum =
    take_all (h ++ take (log_line - length h - 1 - 1) m)
      (if ltb (log_line - 2) wanted then log_line - 2 else wanted)
      (ground (
        arith,
        fits,
        sum,
        length-append h (take (log_line - length h - 1 - 1) m),
        length-take_le (log_line - length h - 1 - 1) m,
      ))
    ∙ ap (λ k. h ++ take k m) (omega (arith, fits))
    ∙ sym (take-append h m (log_line - 2) fits)

abbrev pub text_or_none : Option Text → Text
text_or_none none = []
text_or_none (some t) = t

-- A prefix that is there and is shorter than the array.
abbrev pub prefix_shown : Option Text → Text
prefix_shown none = []
prefix_shown (some p) = if leb (log_line - 1) (length p) then [] else p

-- The text up to the newline, by what there is of a message.
line_of :
    (h : Text) (message : Option Text)
    → length h ≤ log_line - 2
    → take
        (if ltb
            (log_line - 2)
            (length h + elim message as (λ _. ℕ) [ none ↦ 0 | some m ↦ length m ])
          then log_line - 2
          else (length h + elim message as (λ _. ℕ) [ none ↦ 0 | some m ↦ length m ]))
        (h ++ elim message as (λ _. Text) [
          | none ↦ []
          | some m ↦ take (log_line - length h - 1 - 1) m
        ])
      ≡ take (log_line - 2) (h ++ text_or_none message)
line_of h (some m) fits = cut_whole h m (length h + length m) fits refl
line_of h none fits =
    ap
      (λ t.
        take (if ltb (log_line - 2) (length h + 0) then log_line - 2 else length h + 0) (h ++ t))
      (sym (take_all [] (log_line - length h - 1 - 1) (omega arith)))
    ∙ cut_whole h [] (length h + 0) fits (omega arith)

prefix_fits : (p : Text) → length (prefix_shown (some p)) ≤ log_line - 2
prefix_fits p = elim (Bool-cases (leb (log_line - 1) (length p))) [
  | inl long ↦ rw long (omega arith)
  | inr short ↦ rw short (ground arith)
]

line_cut :
    (prefix message : Option Text)
    → hm2_log_line prefix message
      ≡ take (log_line - 2) (prefix_shown prefix ++ text_or_none message) ++ b'\n' ∷ []
unfolding hm2_log_line
line_cut none message = ap (λ t. t ++ b'\n' ∷ []) (line_of [] message (omega arith))
line_cut (some p) message =
    ap (λ t. t ++ b'\n' ∷ []) (line_of (prefix_shown (some p)) message (prefix_fits p))

-- A line of the log is the prefix, unless there is none or it is too long for the array, and the
-- message, cut together at 510 bytes, and a newline; so with its NUL it fits the array.
pub hm2_log_line_lem :
    (prefix message : Option Text)
    → (hm2_log_line prefix message
        ≡ take (log_line - 2) (prefix_shown prefix ++ text_or_none message) ++ b'\n' ∷ [])
      × (suc (length (hm2_log_line prefix message)) ≤ log_line)
hm2_log_line_lem prefix message =
    let t : Text = take (log_line - 2) (prefix_shown prefix ++ text_or_none message) in
    (
      line_cut prefix message,
      omega (
        arith,
        ap length (line_cut prefix message),
        length-append t (b'\n' ∷ []),
        length-take_le (log_line - 2) (prefix_shown prefix ++ text_or_none message),
      ),
    )
