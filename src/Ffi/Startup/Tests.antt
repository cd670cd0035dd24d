-- ===== src/Ffi/Startup/Tests.antt =====
-- Runs of starting and stopping at concrete inputs.
use filedrop.Base.{◌≡◌, refl, List, [], ◌∷◌}
use filedrop.Ffi.Samples.{runtime, net, show_id}
use filedrop.Ffi.Startup.{start_server, stop_server}
use filedrop.Ffi.Startup.Serving.{ports}

-- The first free port is served on.
second_port : ports (start_server show_id net runtime).1.servers ≡ 53318 ∷ []
unfolding start_server filedrop.Base.ℕ_discrete
second_port = refl

-- Of two servers that have been started, one serves on.
start_server_twice :
    ports (start_server show_id net (start_server show_id net runtime).1).1.servers ≡ 53318 ∷ []
unfolding start_server filedrop.Base.ℕ_discrete
start_server_twice = refl

none_left : ports (stop_server (start_server show_id net runtime).1).1.servers ≡ []
unfolding start_server stop_server filedrop.Base.ℕ_discrete
none_left = refl
