-- ===== src/Cli/Keys/Args/Laws.antt =====
-- Which arguments `fand keys` accepts.
use fand.Prelude.{
  if_cases, ◌≡◌, ◌↔◌, refl, ap, sym, ◌∙◌, subst, Bool, true, false, not, ◌==◌, ==_iff, List, [],
  ◌∷◌, ◌⊎◌, inl, inr, length, if◌then◌else◌, arith, ◌≢◌,
}
use fand.Prelude.Text.{Text, codes, same_text, same_text_iff}
use fand.Cli.Keys.Args.{
  Mode, default, debug_open, json, all_fan_keys, read, debug_write, ArgError, read_length,
  write_length, Pending, nothing, read_fourcc, write_fourcc, write_value, is_default, flag,
  argument, complete, read_args, parse_args,
}

-- The arguments that stand for a mode, and the length of its key.
abbrev pub render : Mode → List Text
render default = []
render debug_open = codes "--debug-open" ∷ []
render json = codes "--json" ∷ []
render all_fan_keys = codes "--all" ∷ []
render (read fourcc) = codes "--read" ∷ fourcc ∷ []
render (debug_write fourcc value) = codes "--write" ∷ fourcc ∷ value ∷ []

abbrev pub HasKey : Mode → Type 0
HasKey (read fourcc) = length fourcc ≡ 4
HasKey (debug_write fourcc value) = length fourcc ≡ 4
HasKey mode = Unit

abbrev IsParsed : List Text → Mode → Type 0
IsParsed args mode = (args ≡ render mode) × HasKey mode

flag_exclusive :
    (mode : Mode) (a : Text) (found : Mode × Pending)
    → is_default mode ≡ false
    → flag mode a ≢ inr found
unfolding flag
flag_exclusive mode a found h e = ground arith

-- A refused argument ends the parse.
refused :
    (s : ArgError ⊎ (Mode × Pending)) (args : List Text) (found : Mode)
    → ((r : Mode × Pending) → s ≢ inr r)
    → read_args s args ≢ inr found
unfolding read_args
refused (inl e) args found h eq = cc
refused (inr r) args found h eq = absurd (h r refl)

-- After a mode nothing may follow.
last_mode :
    (mode found : Mode) (args : List Text)
    → is_default mode ≡ false
    → read_args (inr (mode, nothing)) args ≡ inr found
    → (args ≡ []) × (mode ≡ found)
unfolding read_args complete argument
last_mode mode found [] h e = (refl, cc)
last_mode mode found (a ∷ args) h e =
    absurd (refused (flag mode a) args found (λ r. flag_exclusive mode a r h) e)

-- A mode is the last thing that its arguments say.
finish :
    (mode found : Mode) (before args : List Text)
    → is_default mode ≡ false
    → (args ≡ [] → before ≡ render mode)
    → HasKey mode
    → read_args (inr (mode, nothing)) args ≡ inr found
    → IsParsed before found
finish mode found before args h r k e =
    let (last, same) = last_mode mode found args h e in subst (IsParsed before) same (r last, k)

not-true : (t : Bool) → not t ≡ false → t ≡ true
not-true t h = ground arith

module _ (found : Mode) where
  abbrev Leads : List Text → List Text → ArgError ⊎ (Mode × Pending) → Type 0
  Leads before args s = read_args s args ≡ inr found → IsParsed before found

  read_fourcc_lem :
      (a : Text) (args : List Text)
      → a ≡ codes "--read"
      → Leads (a ∷ args) args (inr (default, read_fourcc))
  unfolding read_args complete argument
  read_fourcc_lem a [] h e = cc
  read_fourcc_lem a (v ∷ args) h e =
      if_cases (Leads (a ∷ v ∷ args) args) (not (length v == 4)) (λ t e. cc)
        (λ t e.
          finish (read v) found (a ∷ v ∷ args) args refl (λ l. cc)
            ((==_iff (length v) 4).0 (not-true (length v == 4) t)) e)
        e

  write_value_lem :
      (a v : Text) (args : List Text)
      → a ≡ codes "--write"
      → length v ≡ 4
      → Leads (a ∷ v ∷ args) args (inr (default, write_value v))
  unfolding read_args complete argument
  write_value_lem a v [] h four e = cc
  write_value_lem a v (w ∷ args) h four e =
      finish (debug_write v w) found (a ∷ v ∷ w ∷ args) args refl (λ l. cc) four e

  write_fourcc_lem :
      (a : Text) (args : List Text)
      → a ≡ codes "--write"
      → Leads (a ∷ args) args (inr (default, write_fourcc))
  unfolding read_args complete argument
  write_fourcc_lem a [] h e = cc
  write_fourcc_lem a (v ∷ args) h e =
      if_cases (Leads (a ∷ v ∷ args) args) (not (length v == 4)) (λ t e. cc)
        (λ t e. write_value_lem a v args h ((==_iff (length v) 4).0 (not-true (length v == 4) t)) e)
        e

  first_lem : (a : Text) (args : List Text) → Leads (a ∷ args) args (flag default a)
  unfolding flag read_args
  first_lem a args =
      if_cases (Leads (a ∷ args) args) (same_text a (codes "--all"))
        (λ t e.
          let l = (same_text_iff a (codes "--all")).0 t in
          finish all_fan_keys found (a ∷ args) args refl (λ r. cc) tt e)
        (λ _.
          if_cases (Leads (a ∷ args) args) (same_text a (codes "--read"))
            (λ t e. read_fourcc_lem a args ((same_text_iff a (codes "--read")).0 t) e)
            (λ _.
              if_cases (Leads (a ∷ args) args) (same_text a (codes "--write"))
                (λ t e. write_fourcc_lem a args ((same_text_iff a (codes "--write")).0 t) e)
                (λ _.
                  if_cases (Leads (a ∷ args) args) (same_text a (codes "--debug-open"))
                    (λ t e.
                      let l = (same_text_iff a (codes "--debug-open")).0 t in
                      finish debug_open found (a ∷ args) args refl (λ r. cc) tt e)
                    (λ _.
                      if_cases (Leads (a ∷ args) args) (same_text a (codes "--json"))
                        (λ t e.
                          let l = (same_text_iff a (codes "--json")).0 t in
                          finish json found (a ∷ args) args refl (λ r. cc) tt e)
                        (λ _ e. cc)))))

in_right : (a b : Mode) → ◌≡◌ {A = ArgError ⊎ Mode} (inr a) (inr b) → a ≡ b
in_right a b e = cc

sound : (args : List Text) (found : Mode) → parse_args args ≡ inr found → IsParsed args found
unfolding parse_args read_args complete argument
sound [] found e = subst (IsParsed []) (in_right default found e) (refl, tt)
sound (a ∷ args) found e = first_lem found a args e

complete_lem : (found : Mode) → HasKey found → parse_args (render found) ≡ inr found
unfolding parse_args read_args complete argument flag same_text
complete_lem default k = refl
complete_lem debug_open k = refl
complete_lem json k = refl
complete_lem all_fan_keys k = refl
complete_lem (read fourcc) k =
    subst
      (λ b.
        read_args (if not b then inl (read_length (length fourcc)) else inr (read fourcc, nothing))
          []
        ≡ inr (read fourcc))
      (sym ((==_iff (length fourcc) 4).1 k)) refl
complete_lem (debug_write fourcc value) k =
    subst
      (λ b.
        read_args
          (if not b then inl (write_length (length fourcc)) else inr (default, write_value fourcc))
          (value ∷ [])
        ≡ inr (debug_write fourcc value))
      (sym ((==_iff (length fourcc) 4).1 k)) refl

-- The arguments of `fand keys` are taken exactly where they are the ones that a mode is written
-- with, its flag, its key and its value, and its key, if it has one, is of four bytes. The mode is
-- then that one: no other order, no second flag and no further argument is taken.
pub parse_args_iff :
    (args : List Text) (mode : Mode)
    → (parse_args args ≡ inr mode) ↔ ((args ≡ render mode) × HasKey mode)
parse_args_iff args mode = (sound args mode, λ p. ap parse_args p.0 ∙ complete_lem mode p.1)
