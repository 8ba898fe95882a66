-- ===== src/Signal/Settings.antt =====
-- The listeners, the settings and the end of a `Signal` (Signal.cpp lines 978 to 984 and 1013 to
-- 1093). A listener is the number of its channel and counts as one object for each channel.
use bff_rtc_base.Base.{ℕ, Bool, true, false, List, Option, Bytes, ℤ, int_eq, set_insert, set_erase}
use bff_rtc_base.Signal.Race.{next_gen, cancel_mixed_delay_only}
use bff_rtc_base.Signal.Request.{Location}
use bff_rtc_base.Signal.State.{Private}
use bff_rtc_base.Signal.Links.{Links}
use bff_rtc_base.Signal.Send.{primary_running}
use bff_rtc_base.Signal.Connection.{stop_keepalive}

-- With a listener, or with the null pointer.
unfoldable pub set_listener : ℤ → (present : Bool) → Private → Private
set_listener channel true d = record d { listeners = set_insert channel d.listeners }
set_listener channel false d = record d { listeners = set_erase channel d.listeners }

abbrev pub set_state_string : Bytes → Private → Private
set_state_string state d = record d { life = record d.life { state_string = state } }

abbrev pub set_host_port : Bytes → ℕ → Private → Private
set_host_port host port d = record d { host = host; port = port }

abbrev pub set_vcodecs : List Bytes → Private → Private
set_vcodecs vcodecs d = record d { requests = record d.requests { vcodecs = vcodecs } }

abbrev pub set_orientation : Bool → Private → Private
set_orientation orientation d = record d {
  requests = record d.requests { orientation = orientation };
}

abbrev pub set_location : Option Location → Private → Private
set_location location d = record d { requests = record d.requests { location = location } }

abbrev pub set_use_json : Bool → Private → Private
set_use_json use_json d = record d { requests = record d.requests { use_json = use_json } }

abbrev pub is_connected : Links → Private → Bool
is_connected links d = primary_running links d

-- The destructor.
unfoldable pub destroy : Private → Private
unfolding stop_keepalive cancel_mixed_delay_only
destroy d0 =
    let d = stop_keepalive (record d0 {
      life = record d0.life { user_closed = true; reconnect_gen = next_gen d0.life.reconnect_gen };
    }) in
    record d { race = cancel_mixed_delay_only d.race; life = record d.life { owner = false } }
