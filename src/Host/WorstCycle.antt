-- ===== src/Host/WorstCycle.antt =====
-- The worst cycle that host/main.c measures and declares (declare_worst_cycle). The periods that the
-- loop runs are given, each as the seconds that the driver's read and its write took.
use driver_hostmot.Base.{
  ℕ, zero, suc, ◌+◌, ◌≤◌, ◌/◌, ◌≡◌, ◌⊎◌, inl, inr, refl, ap, ◌∙◌, Bool, true, false, List, [], ◌∷◌,
  ◌++◌, arith, ltb, if◌then◌else◌, take, drop, All, Bool-cases, ◌%◌, ◌^◌,
}
use driver_hostmot.Base.Int.{pos}
use driver_hostmot.Double.{Double}
use driver_hostmot.Host.Region.{add64}
use driver_hostmot.Host.Config.Keys.{Config}

-- A period of the measurement.
pub record Timed (Real : Type 0) : Type 0 where
  pub read_s : Real
  pub write_s : Real

-- What the loop keeps.
pub record Worst (Real : Type 0) : Type 0 where
  pub counted : ℕ
  pub read_worst_s : Real
  pub write_worst_s : Real
  pub worst_s : Real

-- The sum and the product of two doubles are arguments.
module _ (d : Double) (add mul : d.Real → d.Real → d.Real) where
  open d use {Real}

  abbrev larger : Real → Real → Real
  larger worst x = if d.lt worst x then x else worst

  abbrev count_cycle : Timed Real → Worst Real → Worst Real
  count_cycle t w = record {
    counted = (w.counted + 1) % 2 ^ 32;
    read_worst_s = larger w.read_worst_s t.read_s;
    write_worst_s = larger w.write_worst_s t.write_s;
    worst_s = larger w.worst_s (add t.read_s t.write_s);
  }

  unfoldable pub measure : (skipped i : ℕ) → List (Timed Real) → Worst Real → Worst Real
  measure skipped i [] w = w
  measure skipped i (t ∷ rest) w =
      measure skipped (i + 1) rest (if ltb i skipped then w else count_cycle t w)

  abbrev nothing_counted : Worst Real
  nothing_counted = record {
    counted = 0;
    read_worst_s = d.of_int (pos 0);
    write_worst_s = d.of_int (pos 0);
    worst_s = d.of_int (pos 0);
  }

  -- The periods are those before the process is asked to stop.
  unfoldable pub declare_worst_cycle : Config Real → List (Timed Real) → ℕ
  declare_worst_cycle g periods =
      let w = measure (g.measure_cycles / 10) 0 (take g.measure_cycles periods) nothing_counted in
      if ltb 0 g.worst_case_cycle_ns
      then g.worst_case_cycle_ns
      else add64 (d.to_u64 (mul (mul w.worst_s g.worst_case_margin) (d.of_int (pos 1000000000)))) 1

  abbrev total : Timed Real → Real
  total t = add t.read_s t.write_s

  abbrev pub IsOneOf : Real → List (Timed Real) → Real → Type 0
  IsOneOf from l worst =
      (worst ≡ from)
      ⊎ ((before : List (Timed Real)) × (t : Timed Real) × (after : List (Timed Real)) × (l
            ≡ before ++ t ∷ after)
          × (worst ≡ total t))

  -- `worst` is `from` or the time of one of the periods, it is `from` or longer, and no period is
  -- longer than it.
  pub record IsWorst (from : Real) (l : List (Timed Real)) (worst : Real) : Type 0 where
    pub one_of : IsOneOf from l worst
    pub rises : (worst ≡ from) ⊎ (d.lt from worst ≡ true)
    pub none_longer : All (λ t. d.lt worst (total t) ≡ false) l

  module _ (lt_trans : (a b c : Real) → d.lt a b ≡ true → d.lt b c ≡ true → d.lt a c ≡ true) where
    not_below : (a b c : Real) → (b ≡ a) ⊎ (d.lt a b ≡ true) → d.lt a c ≡ false → d.lt b c ≡ false
    not_below a b c (inl same) ac = ap (λ x. d.lt x c) same ∙ ac
    not_below a b c (inr ab) ac = elim (Bool-cases (d.lt b c)) [
      | inl bc ↦ absurd (ground (arith, lt_trans a b c ab bc))
      | inr no_bc ↦ no_bc
    ]

    rises_on :
        (a b c : Real) → d.lt a b ≡ true → (c ≡ b) ⊎ (d.lt b c ≡ true) → (c ≡ a) ⊎ (d.lt a c ≡ true)
    rises_on a b c ab (inl same) = inr (ap (λ x. d.lt a x) same ∙ ab)
    rises_on a b c ab (inr bc) = inr (lt_trans a b c ab bc)

    worst_among :
        (lt_irrefl : (a : Real) → d.lt a a ≡ false) (skipped i : ℕ) (l : List (Timed Real))
        (w : Worst Real)
        → skipped ≤ i
        → IsWorst w.worst_s l (measure skipped i l w).worst_s
    unfolding measure
    worst_among lt_irrefl skipped i [] w le = record {
      one_of = inl refl;
      rises = inl refl;
      none_longer = tt;
    }
    worst_among lt_irrefl skipped i (t ∷ l) w le =
        let past : ltb i skipped ≡ false = ground arith in
        let after = worst_among lt_irrefl skipped (i + 1) l (count_cycle t w) (omega arith) in
        let v = (measure skipped (i + 1) l (count_cycle t w)).worst_s in
        rw (measure, past) (step w.worst_s v (d.lt w.worst_s (total t)) refl after)
      where
        from_time : (v : Real) → IsOneOf (total t) l v → (a : Real) → IsOneOf a (t ∷ l) v
        from_time v (inl same) a = inr ([], t, l, refl, same)
        from_time v (inr (before, u, rest, e, sum)) a =
            inr (t ∷ before, u, rest, ap (λ ts. t ∷ ts) e, sum)

        from_start : (a v : Real) → IsOneOf a l v → IsOneOf a (t ∷ l) v
        from_start a v (inl same) = inl same
        from_start a v (inr (before, u, rest, e, sum)) =
            inr (t ∷ before, u, rest, ap (λ ts. t ∷ ts) e, sum)

        step :
            (a v : Real) (b : Bool)
            → d.lt a (total t) ≡ b
            → IsWorst (if b then total t else a) l v
            → IsWorst a (t ∷ l) v
        step a v true e h = record {
          one_of = from_time v h.one_of a;
          rises = rises_on a (total t) v e h.rises;
          none_longer =
              (not_below (total t) v (total t) h.rises (lt_irrefl (total t)), h.none_longer);
        }
        step a v false e h = record {
          one_of = from_start a v h.one_of;
          rises = h.rises;
          none_longer = (not_below a v (total t) h.rises e, h.none_longer);
        }

    worst_after :
        (lt_irrefl : (a : Real) → d.lt a a ≡ false) (k skipped i : ℕ) (l : List (Timed Real))
        (w : Worst Real)
        → skipped ≡ i + k
        → IsWorst w.worst_s (drop k l) (measure skipped i l w).worst_s
    unfolding measure
    worst_after lt_irrefl zero skipped i l w e = worst_among lt_irrefl skipped i l w (omega arith)
    worst_after lt_irrefl (suc k) skipped i [] w e = record {
      one_of = inl refl;
      rises = inl refl;
      none_longer = tt;
    }
    worst_after lt_irrefl (suc k) skipped i (t ∷ l) w e =
        let early : ltb i skipped ≡ true = ground arith in
        rw (measure, early) (worst_after lt_irrefl k skipped (i + 1) l w (omega arith))

    -- With a figure in the file, that figure is declared. Without one it is the worst time times the
    -- margin in whole nanoseconds and one more, and the worst time is that of a period that was
    -- counted, or nought; no period after the first tenth took longer. Doubles are compared by an
    -- order that is transitive, with none before itself.
    pub declare_worst_cycle_lem :
        (lt_irrefl : (a : Real) → d.lt a a ≡ false) (g : Config Real) (periods : List (Timed Real))
        → (worst : Real) × IsWorst
            (d.of_int (pos 0))
            (drop (g.measure_cycles / 10) (take g.measure_cycles periods))
            worst
          × (declare_worst_cycle g periods ≡ (
              if ltb 0 g.worst_case_cycle_ns
              then g.worst_case_cycle_ns
              else add64
                  (d.to_u64 (mul (mul worst g.worst_case_margin) (d.of_int (pos 1000000000))))
                  1))
    unfolding declare_worst_cycle
    declare_worst_cycle_lem lt_irrefl g periods =
        let ran = take g.measure_cycles periods in
        (
          (measure (g.measure_cycles / 10) 0 ran nothing_counted).worst_s,
          worst_after lt_irrefl (g.measure_cycles / 10) (g.measure_cycles / 10) 0 ran
              nothing_counted (omega arith),
          refl,
        )
