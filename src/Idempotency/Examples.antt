-- ===== src/Idempotency/Examples.antt =====
-- Calls of the interceptor over the map store, and the theorems at them.
use Prim.Native.Nat.{ℕ, suc}
use runtime_go.Prelude.{
  ◌≡◌, ◌↔◌, ◌⊎◌, inr, ◌≤◌, ◌+◌, arith, refl, true, false, List, [], ◌∷◌, Option, none, some, Bytes,
  codes,
}
use runtime_go.Prelude.Outcome.{Result, ok, err}
use runtime_go.ContentLine.Line.{equal}
use runtime_go.ContentLine.Line.Equal.{equal_refl}
use runtime_go.Idempotency.{
  Field, string_value, Message, proto, Codec, Options, World, Handler, given, intercept, opts_in,
  string_field, bool_field, field, string_of, bool_of, key_name, claim_key, claimed, run_claimed,
  call, finish, settle, settle_encoded, settled, encode, Key, aborted, request_in_flight,
  request_abandoned, request_id_field, ack,
}
use runtime_go.Idempotency.Replay.{IsCodec, intercept-in_flight, intercept-abandoned}
use runtime_go.Idempotency.Claim.{intercept-data_of}
use runtime_go.Idempotency.Record.{intercept-Replays}
use runtime_go.Idempotency.Run.{intercept-call, intercept-released}
use runtime_go.Idempotency.KeyMap.{KeyMap, put, map_store, map_store-IsStore}

abbrev look : KeyMap → Bytes → Option Key
look s n = s n

abbrev pack_fields : Bytes → List Field → Result Bytes (Bytes × Bytes)
pack_fields t [] = ok (t, [])
pack_fields t (_ ∷ _) = err []

abbrev write_value : Bytes → Bytes → Result Bytes Bytes
write_value t [] = ok t
write_value t (_ ∷ _) = err []

-- A codec of the messages without fields.
abbrev name_codec : Codec
name_codec = record {
  pack = λ m. pack_fields m.type_name m.fields;
  marshal = λ a. write_value a.0 a.1;
  unmarshal = λ s. ok (s, []);
  unpack = λ a. ok (record { type_name = a.0; fields = [] });
  sha256 = λ s. s;
}

pack_fields-lem :
    (t : Bytes) (fs : List Field) (a : Bytes × Bytes)
    → pack_fields t fs ≡ ok a
    → ◌≡◌ {A = Result Bytes Message}
        (ok (record { type_name = a.0; fields = [] }))
        (ok (record { type_name = t; fields = fs }))
pack_fields-lem t [] a h = cc
pack_fields-lem t (_ ∷ _) a h = cc

write_value-lem :
    (t v s : Bytes)
    → write_value t v ≡ ok s
    → ◌≡◌ {A = Result Bytes (Bytes × Bytes)} (ok (s, [])) (ok (t, v))
write_value-lem t [] s h = cc
write_value-lem t (_ ∷ _) s h = cc

name_codec-IsCodec : IsCodec name_codec
name_codec-IsCodec = record {
  unpack-pack = λ m a h. pack_fields-lem m.type_name m.fields a h;
  unmarshal-marshal = λ a s h. write_value-lem a.0 a.1 s h;
}

abbrev minute_options : Options
minute_options = record { domain = codes "test"; stale_after = 60; create_error = none }

abbrev request : Message
request = record {
  type_name = codes "Create";
  fields =
      record {
        name = codes "request_id";
        is_list = false;
        is_map = false;
        value = string_value (codes "r");
      }
      ∷ [];
}

abbrev reply : Message
reply = record { type_name = codes "Reply"; fields = [] }

abbrev counting : Handler ℕ
counting v n = (ok (proto reply), suc n)

abbrev failing : Handler ℕ
failing v n = (err (given []), n)

abbrev empty_world : World KeyMap ℕ
empty_world = record { keys = λ n. none; data_of = 0; log = [] }

abbrev world_after : World KeyMap ℕ
world_after =
    (intercept (map_store 100) name_codec minute_options 100 (codes "/m") counting (proto request)
      empty_world).1

request-opts_in : opts_in request ≡ true
unfolding opts_in string_field bool_field field string_of bool_of equal
request-opts_in = refl

request_runs :
    intercept
      (map_store 100)
      name_codec
      minute_options
      100
      (codes "/m")
      counting
      (proto request)
      empty_world
    ≡ (ok (proto reply), world_after)
unfolding intercept opts_in string_field bool_field field string_of bool_of equal claimed
    run_claimed call finish
request_runs = refl

world_after_log : world_after.log ≡ []
unfolding intercept opts_in string_field bool_field field string_of bool_of equal claimed
    run_claimed call finish settle settle_encoded settled encode
world_after_log = refl

intercept-Replays_example :
    intercept
      (map_store 100)
      name_codec
      minute_options
      900
      (codes "/m")
      failing
      (proto request)
      world_after
    ≡ (ok (proto reply), world_after)
intercept-Replays_example =
    intercept-Replays (map_store 100) look name_codec minute_options (map_store-IsStore 100)
      name_codec-IsCodec 100 900 (codes "/m") counting failing request request reply empty_world
      world_after request-opts_in request-opts_in refl request_runs world_after_log (λ n. refl)

-- The claim of another caller, made at 100.
abbrev other_claim : Key
other_claim = record (claim_key name_codec (codes "/m") (string_field request request_id_field)) {
  create_time = 100;
}

abbrev claimed_world : World KeyMap ℕ
claimed_world = record { keys = λ n. some other_claim; data_of = 5; log = [] }

intercept-in_flight_example :
    (intercept
        (map_store 100)
        name_codec
        minute_options
        160
        (codes "/m")
        counting
        (proto request)
        claimed_world
      ≡ (err (aborted request_in_flight (codes "test")), claimed_world))
    ↔ ((other_claim.create_time ≡ 0) ⊎ (160 ≤ other_claim.create_time + 60))
unfolding claim_key
intercept-in_flight_example =
    intercept-in_flight (map_store 100) look name_codec minute_options 160 (map_store-IsStore 100)
      (codes "/m") counting request claimed_world other_claim 60 request-opts_in refl refl refl
      (inr (λ e. cc, refl))

intercept-data_of_example :
    (intercept
      (map_store 100)
      name_codec
      minute_options
      500
      (codes "/m")
      counting
      (proto request)
      claimed_world).1.data_of
    ≡ 5
intercept-data_of_example =
    intercept-data_of (map_store 100) look name_codec minute_options 500 (map_store-IsStore 100)
      (codes "/m") counting request claimed_world other_claim request-opts_in refl

abbrev request_key : Bytes
request_key = key_name name_codec (codes "/m") (string_field request request_id_field)

abbrev freed_world : World KeyMap ℕ
freed_world = record claimed_world { keys = put request_key none claimed_world.keys }

freed_created :
    (map_store 100).create
      (claim_key name_codec (codes "/m") (string_field request request_id_field))
      freed_world.keys
    ≡ (ok ack, put request_key (some other_claim) freed_world.keys)
unfolding claim_key
freed_created = rw (equal_refl request_key) refl

intercept-abandoned_example :
    (intercept
        (map_store 100)
        name_codec
        minute_options
        161
        (codes "/m")
        counting
        (proto request)
        claimed_world
      ≡ (err (aborted request_abandoned (codes "test")), freed_world))
    × (freed_world.keys request_key ≡ none)
    × ((intercept
          (map_store 100)
          name_codec
          minute_options
          170
          (codes "/m")
          counting
          (proto request)
          freed_world).0
        ≡ (counting (proto request) 5).0)
    × ((intercept
          (map_store 100)
          name_codec
          minute_options
          170
          (codes "/m")
          counting
          (proto request)
          freed_world).1.data_of
        ≡ (counting (proto request) 5).1)
unfolding claim_key
intercept-abandoned_example =
    intercept-abandoned (map_store 100) look name_codec minute_options 161 (map_store-IsStore 100)
      (codes "/m") counting request claimed_world other_claim 60 freed_world.keys
      (put request_key (some other_claim) freed_world.keys) request-opts_in refl refl refl
      (inr (λ e. cc, refl)) (omega arith) (omega arith) refl 170 counting request request-opts_in
      refl freed_created

abbrev after_claim : KeyMap
after_claim =
    put (claim_key name_codec (codes "/m") (string_field request request_id_field)).name
      (some other_claim) empty_world.keys

intercept-call_example :
    ((intercept
        (map_store 100)
        name_codec
        minute_options
        100
        (codes "/m")
        counting
        (proto request)
        empty_world).0
      ≡ ok (proto reply))
    × ((intercept
          (map_store 100)
          name_codec
          minute_options
          100
          (codes "/m")
          counting
          (proto request)
          empty_world).1.data_of
        ≡ 1)
intercept-call_example =
    intercept-call (map_store 100) look name_codec minute_options 100 (codes "/m") counting request
      empty_world after_claim request-opts_in refl

intercept-released_example :
    ((intercept
        (map_store 100)
        name_codec
        minute_options
        100
        (codes "/m")
        failing
        (proto request)
        empty_world).0
      ≡ err (given []))
    × ((intercept
            (map_store 100)
            name_codec
            minute_options
            100
            (codes "/m")
            failing
            (proto request)
            empty_world).1.keys
          request_key
        ≡ none)
intercept-released_example =
    intercept-released (map_store 100) look name_codec minute_options 100 (map_store-IsStore 100)
      (codes "/m") failing request empty_world after_claim (put request_key none after_claim)
      (given []) request-opts_in refl refl refl
