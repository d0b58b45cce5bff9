-- ===== src/Net/Tests.antt =====
-- Buffers, scrambled bytes and packets, concrete ones.
use windnet_game.Prelude.{
  ℕ, ◌≡◌, refl, sym, ◌∙◌, some, List, [], ◌∷◌, ◌++◌, append-nil, replicate, arith,
}
use windnet_game.Net.Buffer.{Buffer, init, add}
use windnet_game.Net.Buffer.Stream.{IsValid, Adds, unread, add-Adds}
use windnet_game.Net.Holding.{holding, holding-IsValid, unread-holding}
use windnet_game.Net.Packet.{
  verify_key, net_short, net_long, packet_bytes, serialize_to_buffer, parse_from_buffer, crash,
  parsed,
}
use windnet_game.Net.Packet.Head.{length-packet}
use windnet_game.Net.Packet.RoundTrip.{round_trip}
use windnet_game.Net.Packet.Refused.{version_zero_crashes}

add-Adds_example :
    Adds (init (replicate 8192 0)) (1 ∷ 2 ∷ 3 ∷ []) (add (init (replicate 8192 0)) (1 ∷ 2 ∷ 3 ∷ []))
unfolding init
add-Adds_example = add-Adds (1 ∷ 2 ∷ 3 ∷ []) (holding-IsValid [] 8192 refl) (omega arith)

abbrev body : List ℕ
body = 65 ∷ 66 ∷ 67 ∷ []

abbrev sender : Buffer
sender = holding body 8189

abbrev receiver : Buffer
receiver = holding (packet_bytes body) 8179

round_trip_example :
    (s' r' : Buffer) × (serialize_to_buffer sender ≡ some s')
    × (unread s' ≡ packet_bytes body)
    × (parse_from_buffer receiver ≡ (parsed body, r'))
    × IsValid r'
    × (unread r' ≡ [])
round_trip_example =
    round_trip sender receiver [] (holding-IsValid body 8189 refl) refl
      (omega arith, (omega arith, (omega arith, tt))) (omega arith)
      (holding-IsValid (packet_bytes body) 8179 (omega (arith, length-packet body)))
      (unread-holding (packet_bytes body) 8179 ∙ sym (append-nil (packet_bytes body)))

abbrev versionless : List ℕ
versionless = verify_key ++ (net_short 0 ++ (net_long 1 ++ (9 ∷ [] ++ [])))

version_zero_crashes_example :
    parse_from_buffer (holding versionless 8181) ≡ (crash, holding versionless 8181)
version_zero_crashes_example =
    version_zero_crashes (holding versionless 8181) (9 ∷ []) []
      (holding-IsValid versionless 8181 refl) (unread-holding versionless 8181)
