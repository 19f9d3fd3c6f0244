-- ===== src/Json/Script.antt =====
-- The calls of the writer as data, and any sequence of them, whatever they answer.
use libioma.Base.{ℕ, Bool, Option, List, [], ◌∷◌, Bytes, ℤ}
use libioma.Json.Sink.{Sink}
use libioma.Json.Writer.{Json, Call}
use libioma.Json.Calls.{
  json_object, json_array, json_end, json_key, json_string, json_cstr, json_uint, json_int,
  json_bool, json_null, json_raw,
}

pub data Op : Type 0 where
  object array close null : Op
  key string raw : Bytes → Op
  cstr : Option Bytes → Op
  uint : ℕ → Op
  int : ℤ → Op
  bool : Bool → Op

module _ {S : Type 0} (k : Sink S) where
  unfoldable pub call : Op → Call S
  call object = json_object k
  call array = json_array k
  call close = json_end k
  call null = json_null k
  call (key name) = json_key k name
  call (string s) = json_string k s
  call (raw json) = json_raw k json
  call (cstr s) = json_cstr k s
  call (uint v) = json_uint k v
  call (int v) = json_int k v
  call (bool v) = json_bool k v

  unfoldable pub run : List Op → Json S → Json S
  unfolding call
  run [] j = j
  run (op ∷ ops) j = run ops (call op j).0

  -- What each call answered, in order.
  unfoldable pub answers : List Op → Json S → List Bool
  unfolding call
  answers [] j = []
  answers (op ∷ ops) j = (call op j).1 ∷ answers ops (call op j).0
