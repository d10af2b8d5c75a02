-- ===== src/Tests/Replaying.antt =====
-- A replay of a log with a call and a response on concrete data.
use inferno_sim.Prelude.{◌≡◌, refl, true, false, Option, some, List, [], ◌∷◌}
use inferno_sim.Prelude.Lists.{length, All}
use inferno_sim.Prelude.Int.{pos}
use inferno_sim.Prelude.Result.{ok}
use inferno_sim.Prelude.Text.{folded}
use inferno_sim.EventLog.{Event}
use inferno_sim.Driver.{is_side_effect}
use inferno_sim.Replayer.{ReplayConfig, Tools, new_replayer, replay}
use inferno_sim.Replayer.Order.{is_quiet, replay-quiet}
use inferno_sim.Replayer.Writes.{replay-reads}
use inferno_sim.Tests.Driving.{blank, shop}

abbrev tools : Tools
tools = record {
  decode = λ s. some s;
  hash = λ s. s;
  parse_url = λ s. some shop;
  new_request = λ m u. some u;
  canonical = λ s. s;
  send = λ i req. some (pos 200);
}

abbrev config : ReplayConfig
config = record { strict = true; allow_writes = false }

abbrev call : Event
call = record blank { kind = "OutboundCall"; timestamp = 5 }

abbrev write_call : Event
write_call = record blank { kind = "OutboundCall"; method = "delete"; timestamp = 9 }

abbrev entries : List (Option Event)
entries = some write_call ∷ some call ∷ some blank ∷ []

abbrev in_order : List Event
in_order = blank ∷ call ∷ write_call ∷ []

loaded : new_replayer entries ≡ ok in_order
unfolding new_replayer
loaded = refl

replay-reads_example :
    All (λ r. is_side_effect r.method ≡ false) (replay tools (some shop) config in_order).0
replay-reads_example = replay-reads tools (some shop) config in_order refl

sent_one : length (replay tools (some shop) config in_order).0 ≡ 1
unfolding replay folded
sent_one = refl

replay-quiet_example : is_quiet (replay tools (some shop) config in_order).1 ≡ true
replay-quiet_example = replay-quiet tools (some shop) config entries in_order loaded
