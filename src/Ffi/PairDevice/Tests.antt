-- ===== src/Ffi/PairDevice/Tests.antt =====
-- Runs of pairing at concrete inputs.
use filedrop.Base.{ℕ, nat_eq, ◌+◌, ◌<◌, ◌≡◌, ◌≢◌, ◌↔◌, refl, some, [], ◌∷◌, arith, Text, text}
use filedrop.Base.Words.{pos}
use filedrop.Engine.{FileDropEngine}
use filedrop.Errors.{ok}
use filedrop.Networking.PortScan.{default_port}
use filedrop.Pairing.{present_token}
use filedrop.Ffi.Dto.{ResolvedEndpointDto, QrPairingPayloadDto}
use filedrop.Ffi.PairDevice.{payload, pair_device}
use filedrop.Ffi.PairDevice.Payload.{pair_device-present_token, pair_device-start_server}
use filedrop.Ffi.Samples.{engine, runtime, env, net, show_id}
use filedrop.Ffi.Startup.{start_server}
use filedrop.Ffi.{done, Runtime}

pair_device-present_token_example :
    (p : QrPairingPayloadDto) × (eng' : FileDropEngine) × ((pair_device env runtime 7
        (text "phone")).0
      ≡ done p)
    × ((pair_device env runtime 7 (text "phone")).1.engine ≡ some eng')
    × (p.expires_at ≡ pos (1000 + 300))
    × (((present_token eng'.pairing (some 1200) 7 (text "token")).0 ≡ ok tt)
        ↔ ((1200 < 1000 + 300) × (p.token ≡ text "token")))
unfolding filedrop.Pairing.Token.generate_pairing_token
pair_device-present_token_example =
    pair_device-present_token env runtime 7 (text "phone") engine 1000 1000 1200 (text "token") refl
      refl refl (omega arith) (omega arith) (omega arith) (omega arith) (omega arith)

abbrev endpoint : ResolvedEndpointDto
endpoint = record { address = text "192.168.1.2"; port = 53318 }

abbrev served : Runtime filedrop.Ffi.Samples.whole filedrop.Ffi.Samples.channel
served = record runtime {
  server_shutdown = some 0;
  servers = record { port = 53318; shutdown = filedrop.Ffi.held } ∷ [];
}

started : start_server show_id net runtime ≡ (done endpoint, served)
unfolding start_server filedrop.Base.ℕ_discrete
started = refl

paired : (pair_device env served 7 (text "phone")).0 ≡ done (payload env engine (text "token"))
unfolding pair_device filedrop.Pairing.Token.generate_pairing_token
paired = refl

taken : net.is_free default_port ≡ filedrop.Base.false
unfolding filedrop.Base.ℕ_discrete
taken = refl

pair_device-start_server_example :
    ((payload env engine (text "token")).port ≡ default_port) × (endpoint.port ≢ default_port)
pair_device-start_server_example =
    pair_device-start_server env served 7 (text "phone") show_id net runtime endpoint
      (payload env engine (text "token")) taken started paired
