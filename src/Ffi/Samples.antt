-- ===== src/Ffi/Samples.antt =====
-- Values to evaluate the calls of the application with.
use filedrop.Base.{
  ℕ, nat_eq, list_eq, ◌==◌, true, false, none, some, [], ◌∷◌, if◌then◌else◌, Text, text,
}
use filedrop.Discovery.Mdns.{Library}
use filedrop.Discovery.Udp.{SocketFaults}
use filedrop.Engine.{FileDropEngine}
use filedrop.Errors.{Uuid}
use filedrop.Networking.LanAddress.{UdpRoute}
use filedrop.Transfer.Queue.{new_queue}
use filedrop.Transfer.Session.{Floats, Store}
use filedrop.Ffi.CAbi.{Serde}
use filedrop.Ffi.Channel.{Broadcast}
use filedrop.Ffi.Dto.{DiscoveredDeviceDto}
use filedrop.Ffi.Events.{FileDropEvent}
use filedrop.Ffi.Nearby.{Answers}
use filedrop.Ffi.PairDevice.{Surroundings}
use filedrop.Ffi.SampleChannel.{log_channel}
use filedrop.Ffi.Startup.{Network}
use filedrop.Ffi.{done, refused, event_channel_capacity, Runtime}

-- Whole numbers in place of floating point.
abbrev pub whole : Floats
whole = record {
  F64 = ℕ;
  of_u64 = λ n. n;
  div = λ a b. a;
  mul = λ a b. a;
  max = λ a b. a;
  zero_f = 0;
  hundred = 100;
  milli = 1;
}

abbrev pub channel : Broadcast (FileDropEvent whole)
channel = log_channel (FileDropEvent whole) event_channel_capacity

abbrev pub store : Store
store = record {
  next = 0;
  cells = λ i. record { bytes_transferred = 0; is_paused = false; is_cancelled = false };
}

abbrev pub engine : FileDropEngine
engine = record {
  device_id = 1;
  device_name = text "desk";
  paths = record { app_data_dir = text "/data" };
  history = record { records = []; file = none };
  queue = new_queue;
  pairing = [];
  sessions = [];
}

-- The runtime once the engine is there.
abbrev pub runtime : Runtime whole channel
runtime = record {
  engine = some engine;
  events_tx = [];
  poll_rx = 0;
  server_shutdown = none;
  discovery = none;
  store = store;
  servers = [];
  udp_port = filedrop.Discovery.Udp.free;
  tasks = [];
}

-- Ids are shown in unary, which has an inverse.
abbrev pub show_id : Uuid → Text
show_id Prim.Native.Nat.zero = []
show_id (Prim.Native.Nat.suc n) = b'i' ∷ show_id n

abbrev pub parse_id : Text → Uuid
parse_id [] = Prim.Native.Nat.zero
parse_id (c ∷ s) = Prim.Native.Nat.suc (parse_id s)

abbrev pub desk : DiscoveredDeviceDto
desk = record {
  device_id = 1;
  name = text "desk";
  address = text "192.168.1.2";
  port = 53317;
  platform = text "linux";
  paired = false;
}

-- A serializer that writes a constant, and a parser that knows one device.
abbrev pub serde : Serde whole
serde = record {
  show_uuid = show_id;
  to_string_lossy = λ path. path;
  parse_uuid = λ s. some (parse_id s);
  of_string = λ s. some (text "\"text\"");
  of_endpoint = λ e. some (text "{}");
  of_devices = λ d. some (text "[]");
  of_payload = λ p. some (text "{}");
  of_ids = λ l. some (text "[]");
  of_progress = λ p. some (text "{}");
  of_history = λ h. some (text "[]");
  of_event = λ e. some (text "{}");
  to_device = λ s. done desk;
  to_request = λ s. refused (text "no request");
}

abbrev pub library : Library
library = record {
  show_uuid = show_id;
  parse_uuid = λ s. some (parse_id s);
  is_ip = λ s. true;
  build = λ info. none;
  register = λ info. none;
  browse = none;
}

abbrev pub answers : Answers
answers = record {
  daemon = none;
  library = library;
  sockets = record {
    bind = none;
    set_broadcast = none;
    bind_sender = none;
    set_sender_broadcast = none;
  };
}

abbrev route : UdpRoute
route = record { bind = none; connects = true; local_addr = none; ip = text "192.168.1.2" }

-- Port 53317 is taken.
abbrev pub net : Network
net = record {
  is_free = λ port. if port == 53317 then false else true;
  bind = none;
  local_addr = none;
  route = route;
}

abbrev pub env : Surroundings
env = record {
  encode = λ bytes. text "token";
  random_bytes = [];
  clock = some 1000;
  clock_after = some 1000;
  route = route;
}
