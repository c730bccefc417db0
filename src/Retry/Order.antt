-- ===== src/Retry/Order.antt =====
-- In which order the options of retry/client.go can be given to Init.
use go_m.Base.{
  ℕ, ◌≡◌, refl, ap, ◌∙◌, Option, none, some, List, [], ◌∷◌, ◌++◌, map, Action, run_options,
  run_options-append, continue_with,
}
use go_m.Base.Int.{ℤ}
use go_m.Retry.{
  Exponential, Backoffs, Client, init, initialised, option_error, not_exponential,
  set_context_option, set_max_retries_option, write_fields, asserted, set_initial_interval_option,
  set_randomization_factor_option, set_multiplier_option, set_max_interval_option,
  set_max_elapsed_time_option,
}

-- The options that write a field of an exponential back-off, with their arguments.
pub data Setting (N : Type 0) : Type 0 where
  initial : ℤ → Setting N
  randomization : N → Setting N
  factor : N → Setting N
  longest : ℤ → Setting N
  elapsed : ℤ → Setting N

-- The options that wrap the back-off.
pub data Wrapper (C : Type 0) : Type 0 where
  context : C → Wrapper C
  max_retries : ℕ → Wrapper C

module _ {N : Type 0} where
  abbrev pub write_setting : Setting N → Exponential N → Exponential N
  write_setting (initial d) x = record x { initial_interval = d }
  write_setting (randomization n) x = record x { randomization_factor = n }
  write_setting (factor n) x = record x { multiplier = n }
  write_setting (longest d) x = record x { max_interval = d }
  write_setting (elapsed d) x = record x { max_elapsed_time = d }

  -- The settings written one after the other.
  abbrev pub write_settings : List (Setting N) → Exponential N → Exponential N
  write_settings [] x = x
  write_settings (setting ∷ rest) x = write_settings rest (write_setting setting x)

module _ {N C : Type 0} (lib : Backoffs N C) where
  abbrev pub setting_option : Setting N → Action (Client lib)
  setting_option (initial d) = set_initial_interval_option lib d
  setting_option (randomization n) = set_randomization_factor_option lib n
  setting_option (factor n) = set_multiplier_option lib n
  setting_option (longest d) = set_max_interval_option lib d
  setting_option (elapsed d) = set_max_elapsed_time_option lib d

  abbrev pub wrapper_option : Wrapper C → Action (Client lib)
  wrapper_option (context ctx) = set_context_option lib (some ctx)
  wrapper_option (max_retries n) = set_max_retries_option lib n

  abbrev wrapped_by : Wrapper C → lib.BackOff → lib.BackOff
  wrapped_by (context ctx) b = lib.with_context (some b) ctx
  wrapped_by (max_retries n) b = lib.with_max_retries (some b) n

  -- The wrappers put on one after the other, the last one outermost.
  abbrev pub wrap_all : List (Wrapper C) → lib.BackOff → lib.BackOff
  wrap_all [] b = b
  wrap_all (wrapper ∷ rest) b = wrap_all rest (wrapped_by wrapper b)

  abbrev client_of : lib.BackOff → Client lib
  client_of b = record { c = some b }

  setting_option_lem :
      (setting : Setting N) (client : Client lib)
      → setting_option setting client
        ≡ write_fields lib (write_setting setting) (asserted lib client.c) client
  unfolding set_initial_interval_option set_randomization_factor_option set_multiplier_option
      set_max_interval_option set_max_elapsed_time_option
  setting_option_lem (initial d) client = refl
  setting_option_lem (randomization n) client = refl
  setting_option_lem (factor n) client = refl
  setting_option_lem (longest d) client = refl
  setting_option_lem (elapsed d) client = refl

  wrapper_option_lem :
      (wrapper : Wrapper C) (b : lib.BackOff)
      → wrapper_option wrapper (client_of b) ≡ (client_of (wrapped_by wrapper b), none)
  unfolding set_context_option set_max_retries_option
  wrapper_option_lem (context ctx) b = refl
  wrapper_option_lem (max_retries n) b = refl

  run_options-wrappers :
      (wrappers : List (Wrapper C)) (b : lib.BackOff)
      → run_options (map wrapper_option wrappers) (client_of b)
        ≡ (client_of (wrap_all wrappers b), none)
  unfolding run_options
  run_options-wrappers [] b = refl
  run_options-wrappers (w ∷ ws) b =
      ap (λ out. continue_with out (run_options (map wrapper_option ws))) (wrapper_option_lem w b)
      ∙ run_options-wrappers ws (wrapped_by w b)

  -- The type assertion finds an exponential back-off as it is, and does not look into a wrapper.
  pub record AssertionLaws : Type 0 where
    pub asserts_exponential : (x : Exponential N) → lib.as_exponential (lib.exponential x) ≡ some x
    pub refuses_context :
        (o : Option lib.BackOff) (ctx : C) → lib.as_exponential (lib.with_context o ctx) ≡ none
    pub refuses_max_retries :
        (o : Option lib.BackOff) (n : ℕ) → lib.as_exponential (lib.with_max_retries o n) ≡ none

  module _ (laws : AssertionLaws) where
    run_options-settings :
        (settings : List (Setting N)) (x : Exponential N)
        → run_options (map setting_option settings) (client_of (lib.exponential x))
          ≡ (client_of (lib.exponential (write_settings settings x)), none)
    unfolding run_options
    run_options-settings [] x = refl
    run_options-settings (s ∷ ss) x =
        ap (λ out. continue_with out (run_options (map setting_option ss)))
          (setting_option_lem s (client_of (lib.exponential x))
            ∙ ap (λ o. write_fields lib (write_setting s) o (client_of (lib.exponential x)))
                (laws.asserts_exponential x))
        ∙ run_options-settings ss (write_setting s x)

    refuses : (w : Wrapper C) (b : lib.BackOff) → lib.as_exponential (wrapped_by w b) ≡ none
    refuses (context ctx) b = laws.refuses_context (some b) ctx
    refuses (max_retries n) b = laws.refuses_max_retries (some b) n

    wrap_all-refuses :
        (w : Wrapper C) (ws : List (Wrapper C)) (b : lib.BackOff)
        → lib.as_exponential (wrap_all (w ∷ ws) b) ≡ none
    wrap_all-refuses w [] b = refuses w b
    wrap_all-refuses w (v ∷ ws) b = wrap_all-refuses v ws (wrapped_by w b)

    -- Settings first and wrappers after them: Init succeeds on a client with an exponential back-off,
    -- and leaves that back-off with all settings written, in all the wrappers, the last one outermost.
    pub init-settings_first :
        (settings : List (Setting N)) (wrappers : List (Wrapper C)) (x : Exponential N)
        → init lib
            (map setting_option settings ++ map wrapper_option wrappers)
            (record { c = some (lib.exponential x) })
          ≡ (
            record { c = some (wrap_all wrappers (lib.exponential (write_settings settings x))) },
            none,
          )
    unfolding init
    init-settings_first settings wrappers x = ap (initialised lib) (
        run_options-append (map setting_option settings) (map wrapper_option wrappers)
          (client_of (lib.exponential x))
        ∙ ap (λ out. continue_with out (run_options (map wrapper_option wrappers)))
            (run_options-settings settings x)
        ∙ run_options-wrappers wrappers (lib.exponential (write_settings settings x)))

    run_options-late :
        (late : Setting N) (rest : List (Action (Client lib))) (b : lib.BackOff)
        → lib.as_exponential b ≡ none
        → run_options (setting_option late ∷ rest) (client_of b)
          ≡ (client_of b, some (not_exponential lib))
    unfolding run_options
    run_options-late late rest b h =
        ap (λ out. continue_with out (run_options rest))
          (setting_option_lem late (client_of b)
            ∙ ap (λ o. write_fields lib (write_setting late) o (client_of b)) h)

    -- A setting that comes after a wrapper makes Init fail, whatever options follow it.
    pub init-setting_late :
        (w : Wrapper C) (wrappers : List (Wrapper C)) (late : Setting N)
        (rest : List (Action (Client lib))) (b : lib.BackOff)
        → (init lib
            (map wrapper_option (w ∷ wrappers) ++ setting_option late ∷ rest)
            (record { c = some b })).1
          ≡ some (option_error lib (not_exponential lib))
    unfolding init
    init-setting_late w wrappers late rest b =
        ap (λ out. (initialised lib out).1)
          (run_options-append (map wrapper_option (w ∷ wrappers)) (setting_option late ∷ rest)
              (client_of b)
            ∙ ap (λ out. continue_with out (run_options (setting_option late ∷ rest)))
                (run_options-wrappers (w ∷ wrappers) b)
            ∙ run_options-late late rest (wrap_all (w ∷ wrappers) b)
                (wrap_all-refuses w wrappers b))
