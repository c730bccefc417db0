-- ===== src/Environment/Scan/Laws.antt =====
-- Which errors a scan of environment/parse.go returns.
use go_m.Base.{
  ◌≡◌, refl, ap, ◌↔◌, String, Option, none, some, List, [], ◌∷◌, ◌++◌, GoError, All, All-append,
  lookup,
}
use mathlib.Core.Path.{ap₂}
use mathlib.Core.List.{Mem, not-mem-nil, mem-append_left, mem-append_right}
use go_m.Reflect.{FieldInfo, Value, struct_value, ptr_value, Fields, end, field}
use go_m.Environment.{System}
use go_m.Environment.Scan.{
  Scanned, Nested, outcomes, outcomes_from, either_error, or_nil, scan_step, scan_fields,
  scan_nested, scan_field, tagged,
}

abbrev IsNil : Option GoError → Type 0
IsNil e = e ≡ none

All-append_left : (xs ys : List (Option GoError)) → All IsNil (xs ++ ys) → All IsNil xs
All-append_left [] ys h = tt
All-append_left (x ∷ xs) ys h = (h.0, All-append_left xs ys h.1)

All-append_right : (xs ys : List (Option GoError)) → All IsNil (xs ++ ys) → All IsNil ys
All-append_right [] ys h = h
All-append_right (x ∷ xs) ys h = All-append_right xs ys h.1

or_nil-All : (es : List (Option GoError)) → All IsNil es ↔ All IsNil (or_nil es)
or_nil-All [] = (λ h. (refl, tt), λ h. tt)
or_nil-All (e ∷ es) = (λ h. h, λ h. h)

either_error-All :
    (ps ss : List (Option GoError)) → All IsNil ps → All IsNil ss → All IsNil (either_error ps ss)
either_error-All [] ss hp hs = tt
either_error-All (none ∷ ps) ss hp hs =
    All-append IsNil ss (either_error ps ss) hs (either_error-All ps ss hp.1 hs)
either_error-All (some e ∷ ps) ss hp hs = (hp.0, either_error-All ps ss hp.1 hs)

-- Each error of a pointer and, if there is a chance of none, each one of a struct may be returned.
All-either_error_pointer :
    (ps ss : List (Option GoError)) → All IsNil (either_error ps ss) → All IsNil ps
All-either_error_pointer [] ss h = tt
All-either_error_pointer (none ∷ ps) ss h =
    (refl, All-either_error_pointer ps ss (All-append_right ss (either_error ps ss) h))
All-either_error_pointer (some e ∷ ps) ss h = (h.0, All-either_error_pointer ps ss h.1)

All-either_error_struct :
    (ps ss : List (Option GoError)) → All IsNil (either_error (or_nil ps) ss) → All IsNil ss
All-either_error_struct [] ss h = All-append_left ss [] h
All-either_error_struct (none ∷ ps) ss h = All-append_left ss (either_error ps ss) h
All-either_error_struct (some e ∷ ps) ss h = cc (h.0)

outcomes_from-All :
    (o : Option GoError) (ps ss : List (Option GoError))
    → (All IsNil (outcomes_from o ps ss) ↔ ((o ≡ none) × All IsNil ps × All IsNil ss))
outcomes_from-All none ps ss = (
  λ h. (
    refl,
    (or_nil-All ps).1 (All-either_error_pointer (or_nil ps) (or_nil ss) h),
    (or_nil-All ss).1 (All-either_error_struct ps (or_nil ss) h),
  ),
  λ h. either_error-All (or_nil ps) (or_nil ss) ((or_nil-All ps).0 h.1) ((or_nil-All ss).0 h.2),
)
outcomes_from-All (some e) ps ss = (λ h. cc (h.0), λ h. (h.0, tt))

module _ {F : Type 0} where
  -- No field of the struct, or of a struct nested in it, fails when it is scanned by itself.
  abbrev mutual
    pub Clean : System F → String → Fields F → Type 0
    Clean sys prefix end = Unit
    Clean sys prefix (field info v fs) =
        ((scan_field sys prefix info (scan_nested sys prefix v).value).1 ≡ none)
        × CleanNested sys prefix v
        × Clean sys prefix fs

    pub CleanNested : System F → String → Value F → Type 0
    CleanNested sys prefix (struct_value fs) = Clean sys prefix fs
    CleanNested sys prefix (ptr_value (struct_value fs)) = Clean sys prefix fs
    CleanNested sys prefix v = Unit

  abbrev NilNested : Nested F → Type 0
  NilNested n = All IsNil n.pointer_outcomes × All IsNil n.struct_outcomes

  abbrev NilScan : Scanned F → Type 0
  NilScan r = (r.failure ≡ none) × All IsNil r.pointer_errs × All IsNil r.struct_errs

  scan_step-NilScan :
      (info : FieldInfo) (out : Value F × Option GoError) (n : Nested F) (fs : Fields F)
      (rest : Scanned F)
      → (NilScan (scan_step info out n fs rest) ↔ ((out.1 ≡ none) × NilNested n × NilScan rest))
  scan_step-NilScan info (w, some e) n fs rest = (λ h. cc (h.0), λ h. cc (h.0))
  scan_step-NilScan info (w, none) n fs rest = (
    λ h. (
      refl,
      (
        All-append_left (n.pointer_outcomes) (rest.pointer_errs) h.1,
        All-append_left (n.struct_outcomes) (rest.struct_errs) h.2,
      ),
      (
        h.0,
        All-append_right (n.pointer_outcomes) (rest.pointer_errs) h.1,
        All-append_right (n.struct_outcomes) (rest.struct_errs) h.2,
      ),
    ),
    λ (e, hn, hr). (
      hr.0,
      All-append IsNil (n.pointer_outcomes) (rest.pointer_errs) hn.0 hr.1,
      All-append IsNil (n.struct_outcomes) (rest.struct_errs) hn.1 hr.2,
    ),
  )

  mutual
    unfolding scan_fields

    scan_fields-NilScan :
        (sys : System F) (prefix : String) (fs : Fields F)
        → (NilScan (scan_fields sys prefix fs) ↔ Clean sys prefix fs)
    scan_fields-NilScan sys prefix end = (λ h. tt, λ h. (refl, tt, tt))
    scan_fields-NilScan sys prefix (field info v fs) =
        let n = scan_nested sys prefix v in
        let step =
          scan_step-NilScan info (scan_field sys prefix info n.value) n fs
            (scan_fields sys prefix fs) in
        let at_v = scan_nested-NilNested sys prefix v in
        let at_fs = scan_fields-NilScan sys prefix fs in
        (
          λ h. let (e, hn, hr) = step.0 h in (e, at_v.0 hn, at_fs.0 hr),
          λ (e, hn, hr). step.1 (e, at_v.1 hn, at_fs.1 hr),
        )

    scan_nested-NilNested :
        (sys : System F) (prefix : String) (v : Value F)
        → (NilNested (scan_nested sys prefix v) ↔ CleanNested sys prefix v)
    scan_nested-NilNested sys prefix (struct_value fs) =
        let r = scan_fields sys prefix fs in
        let here = outcomes_from-All (r.failure) (r.pointer_errs) (r.struct_errs) in
        let at_fs = scan_fields-NilScan sys prefix fs in
        (λ h. at_fs.0 (here.0 h.1), λ h. (tt, here.1 (at_fs.1 h)))
    scan_nested-NilNested sys prefix (ptr_value (struct_value fs)) =
        let r = scan_fields sys prefix fs in
        let here = outcomes_from-All (r.failure) (r.pointer_errs) (r.struct_errs) in
        let at_fs = scan_fields-NilScan sys prefix fs in
        (λ h. at_fs.0 (here.0 h.0), λ h. (here.1 (at_fs.1 h), tt))
    scan_nested-NilNested sys prefix v = (λ h. tt, λ h. (tt, tt))

  -- The scan returns nil in every order of its goroutines exactly when no field of the struct and of
  -- the structs nested in it fails.
  pub outcomes-Clean :
      (sys : System F) (prefix : String) (fs : Fields F)
      → (All (λ e. e ≡ none) (outcomes (scan_fields sys prefix fs)) ↔ Clean sys prefix fs)
  outcomes-Clean sys prefix fs =
      let r = scan_fields sys prefix fs in
      let here = outcomes_from-All (r.failure) (r.pointer_errs) (r.struct_errs) in
      let there = scan_fields-NilScan sys prefix fs in
      (λ h. there.0 (here.0 h), λ h. here.1 (there.1 h))

mem-or_nil : (e : Option GoError) (es : List (Option GoError)) → Mem e es → Mem e (or_nil es)
mem-or_nil e [] h = elim (not-mem-nil h) [ ]
mem-or_nil e (x ∷ es) h = h

module _ {F : Type 0} (sys : System F) (prefix : String) where
  untagged-scan_field :
      (info : FieldInfo) (v : Value F)
      → lookup "env" info.tags ≡ none
      → scan_field sys prefix info v ≡ (v, none)
  unfolding scan_field
  untagged-scan_field info v h = ap (tagged sys prefix info v) h

  outcomes-siblings :
      (left right : FieldInfo) (a b : Fields F)
      → lookup "env" left.tags ≡ none
      → lookup "env" right.tags ≡ none
      → outcomes
          (scan_fields sys prefix (field left (struct_value a) (field right (struct_value b) end)))
        ≡ or_nil
            (outcomes (scan_fields sys prefix a) ++ (outcomes (scan_fields sys prefix b) ++ []))
          ++ []
  unfolding scan_fields
  outcomes-siblings left right a b hl hr =
      ap₂
        (λ x y. outcomes (
          scan_step left x (scan_nested sys prefix (struct_value a))
            (field right (struct_value b) end)
            (scan_step right y (scan_nested sys prefix (struct_value b)) end
              (scan_fields sys prefix end))))
        (untagged-scan_field left ((scan_nested sys prefix (struct_value a)).value) hl)
        (untagged-scan_field right ((scan_nested sys prefix (struct_value b)).value) hr)

  -- Of two nested structs without a tag of their own, every error that either scan may return, nil
  -- included, may be returned for both: a failure of one is lost when the other ends later.
  pub siblings_race :
      (left right : FieldInfo) (a b : Fields F) (ea eb : Option GoError)
      → lookup "env" left.tags ≡ none
      → lookup "env" right.tags ≡ none
      → Mem ea (outcomes (scan_fields sys prefix a))
      → Mem eb (outcomes (scan_fields sys prefix b))
      → Mem ea (
          outcomes (
            scan_fields sys prefix
              (field left (struct_value a) (field right (struct_value b) end))))
        × Mem eb (
            outcomes (
              scan_fields sys prefix
                (field left (struct_value a) (field right (struct_value b) end))))
  siblings_race left right a b ea eb hl hr ha hb =
      let both = outcomes-siblings left right a b hl hr in
      (
        rw both (mem-append_left [] (mem-or_nil ea _ (mem-append_left _ ha))),
        rw both (mem-append_left [] (mem-or_nil eb _ (mem-append_right _ (mem-append_left [] hb)))),
      )
