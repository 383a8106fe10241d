-- ===== src/Options/Tests.antt =====
-- Options of each kind, by evaluation.
use nets.Prelude.{◌≡◌, refl, true, not}
use nets.Prelude.Int.{pos}
use nets.Options.{
  backlog, keep_idle, bool_value, opt_value, sets_backlog, set_channel_option, set_backlog,
}
use nets.Options.Kinds.{takes, throws_invalid, set_channel_option-typed}

backlog_set :
    set_channel_option (λ _. 0) (λ _. 0) true backlog (opt_value (pos 7)) ≡ sets_backlog (pos 7)
unfolding set_channel_option set_backlog
backlog_set = refl

set_channel_option-typed_example :
    throws_invalid (set_channel_option (λ _. 0) (λ _. 0) true keep_idle (bool_value true))
    ≡ not (takes keep_idle (bool_value true))
set_channel_option-typed_example =
    set_channel_option-typed (λ _. 0) (λ _. 0) true keep_idle (bool_value true)
