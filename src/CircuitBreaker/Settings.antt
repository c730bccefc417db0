-- ===== src/CircuitBreaker/Settings.antt =====
-- The options of Start in circuitbreaker/client.go given one after the other, against the settings
-- that they leave.
use go_m.Base.{
  ◌≡◌, refl, ap, ◌∙◌, Bool, false, Option, none, List, [], ◌∷◌, map, Action, run_options,
  continue_with,
}
use go_m.Base.Int.{ℤ, pos, negsuc}
use go_m.CircuitBreaker.{
  Config, ConfigureCloser, ConfigureOpener, StartConfigs, set_execute_timeout_option,
  set_execute_max_concurrent_requests_option, set_execute_ignore_interupts_option,
  set_fallback_disable, set_fallback_max_concurrent_requests_option, set_closer_sleep_window,
  set_closer_attempts, set_closer_required_successful, set_opener_error_threshold,
  set_opener_request_threshold, set_opener_rolling_duration, set_opener_num_buckets,
}

-- The options with their arguments.
pub data Setting : Type 0 where
  execute_timeout : ℤ → Setting
  execute_requests : ℤ → Setting
  ignore_interrupts : Bool → Setting
  disable_fallback : Bool → Setting
  fallback_requests : ℤ → Setting
  closer_window : ℤ → Setting
  closer_attempts : ℤ → Setting
  closer_successful : ℤ → Setting
  opener_threshold : ℤ → Setting
  opener_volume : ℤ → Setting
  opener_duration : ℤ → Setting
  opener_buckets : ℤ → Setting

-- What may be set, in the order of the options.
pub record Settings : Type 0 where
  pub timeout : ℤ
  pub requests : ℤ
  pub ignored : Bool
  pub disabled : Bool
  pub fallbacks : ℤ
  pub window : ℤ
  pub attempts : ℤ
  pub successful : ℤ
  pub threshold : ℤ
  pub volume : ℤ
  pub duration : ℤ
  pub buckets : ℤ

abbrev pub unset : Settings
unset = record {
  timeout = negsuc 0;
  requests = negsuc 0;
  ignored = false;
  disabled = false;
  fallbacks = negsuc 0;
  window = pos 0;
  attempts = pos 0;
  successful = pos 0;
  threshold = pos 0;
  volume = pos 0;
  duration = pos 0;
  buckets = pos 0;
}

abbrev write_setting : Setting → Settings → Settings
write_setting (execute_timeout i) s = record s { timeout = i }
write_setting (execute_requests i) s = record s { requests = i }
write_setting (ignore_interrupts b) s = record s { ignored = b }
write_setting (disable_fallback b) s = record s { disabled = b }
write_setting (fallback_requests i) s = record s { fallbacks = i }
write_setting (closer_window i) s = record s { window = i }
write_setting (closer_attempts i) s = record s { attempts = i }
write_setting (closer_successful i) s = record s { successful = i }
write_setting (opener_threshold i) s = record s { threshold = i }
write_setting (opener_volume i) s = record s { volume = i }
write_setting (opener_duration i) s = record s { duration = i }
write_setting (opener_buckets i) s = record s { buckets = i }

-- The later of two settings of one kind counts.
abbrev pub write_settings : List Setting → Settings → Settings
write_settings [] s = s
write_settings (setting ∷ rest) s = write_settings rest (write_setting setting s)

abbrev pub closer_of : Settings → ConfigureCloser
closer_of s = record {
  sleep_window = s.window;
  half_open_attempts = s.attempts;
  required_concurrent_successful = s.successful;
}

abbrev pub opener_of : Settings → ConfigureOpener
opener_of s = record {
  error_threshold_percentage = s.threshold;
  request_volume_threshold = s.volume;
  rolling_duration = s.duration;
  num_buckets = s.buckets;
}

module _ {G : Type 0} where
  abbrev pub config_of : Settings → Option G → Config G
  config_of s general = record {
    execution = record {
      timeout = s.timeout;
      max_concurrent_requests = s.requests;
      ignore_interrputs = s.ignored;
    };
    fallback = record { disabled = s.disabled; max_concurrent = s.fallbacks };
    general = general;
  }

  abbrev pub configs_of : Settings → StartConfigs G
  configs_of s = record { config = config_of s none; closer = closer_of s; opener = opener_of s }

  abbrev pub option_of : Setting → Action (StartConfigs G)
  option_of (execute_timeout i) = set_execute_timeout_option i
  option_of (execute_requests i) = set_execute_max_concurrent_requests_option i
  option_of (ignore_interrupts b) = set_execute_ignore_interupts_option b
  option_of (disable_fallback b) = set_fallback_disable b
  option_of (fallback_requests i) = set_fallback_max_concurrent_requests_option i
  option_of (closer_window i) = set_closer_sleep_window i
  option_of (closer_attempts i) = set_closer_attempts i
  option_of (closer_successful i) = set_closer_required_successful i
  option_of (opener_threshold i) = set_opener_error_threshold i
  option_of (opener_volume i) = set_opener_request_threshold i
  option_of (opener_duration i) = set_opener_rolling_duration i
  option_of (opener_buckets i) = set_opener_num_buckets i

  option_of_lem :
      (setting : Setting) (s : Settings)
      → option_of setting (configs_of s) ≡ (configs_of (write_setting setting s), none)
  unfolding set_execute_timeout_option set_execute_max_concurrent_requests_option
      set_execute_ignore_interupts_option set_fallback_disable
      set_fallback_max_concurrent_requests_option set_closer_sleep_window set_closer_attempts
      set_closer_required_successful set_opener_error_threshold set_opener_request_threshold
      set_opener_rolling_duration set_opener_num_buckets
  option_of_lem (execute_timeout i) s = refl
  option_of_lem (execute_requests i) s = refl
  option_of_lem (ignore_interrupts b) s = refl
  option_of_lem (disable_fallback b) s = refl
  option_of_lem (fallback_requests i) s = refl
  option_of_lem (closer_window i) s = refl
  option_of_lem (closer_attempts i) s = refl
  option_of_lem (closer_successful i) s = refl
  option_of_lem (opener_threshold i) s = refl
  option_of_lem (opener_volume i) s = refl
  option_of_lem (opener_duration i) s = refl
  option_of_lem (opener_buckets i) s = refl

  -- A row of options succeeds and leaves what the settings write.
  pub run_options-option_of :
      (settings : List Setting) (s : Settings)
      → run_options (map option_of settings) (configs_of s)
        ≡ (configs_of (write_settings settings s), none)
  unfolding run_options
  run_options-option_of [] s = refl
  run_options-option_of (setting ∷ rest) s =
      ap (λ out. continue_with out (run_options (map option_of rest))) (option_of_lem setting s)
      ∙ run_options-option_of rest (write_setting setting s)
