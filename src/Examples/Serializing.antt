-- ===== src/Examples/Serializing.antt =====
-- The wire format on concrete packets.
use ocremote.Base.{◌≡◌, refl, true, [], ◌∷◌}
use ocremote.Serialize.Value.{Key, Value, end, entry}
use ocremote.Serialize.WellFormed.{Above, IsWritable, IsMap}
use ocremote.Serialize.Table.{key_less}
use ocremote.Serialize.Print.{serialize}
use ocremote.Serialize.Deserialize.{enter_start, running, shift, feed}
use ocremote.Serialize.Deserialize.Chunks.{feed-eq-shift}
use ocremote.Serialize.Deserialize.States.{IsSound, feed-start-IsSound}
use ocremote.Serialize.Deserialize.RoundTrip.{feed-serialize_all}
use ocremote.Examples.Numbers.{bytes}

-- {[1] = nil, ["a@"] = true}
abbrev packet : Value bytes.Double
packet =
    Value.table (entry (Key.num 1) Value.nil (entry (Key.str (97 ∷ 64 ∷ [])) (Value.bool true) end))

packet_text :
    serialize bytes packet ≡ 61 ∷ 35 ∷ 66 ∷ 64 ∷ 33 ∷ 64 ∷ 97 ∷ 64 ∷ 46 ∷ 64 ∷ 126 ∷ 43 ∷ 33 ∷ []
unfolding serialize
packet_text = refl

packet-IsWritable : IsWritable bytes packet
unfolding key_less
packet-IsWritable = IsWritable.table (
    IsMap.entry refl IsWritable.nil (Above.entry refl Above.end)
      (IsMap.entry tt (IsWritable.bool true) Above.end IsMap.end))

feed-serialize_all_example :
    feed bytes
      (enter_start bytes)
      ((61 ∷ 35 ∷ []) ∷ (66 ∷ 64 ∷ 33 ∷ 64 ∷ 97 ∷ 64 ∷ []) ∷ (46 ∷ 64 ∷ 126 ∷ 43 ∷ 33 ∷ []) ∷ [])
    ≡ running (enter_start bytes) (packet ∷ [])
unfolding serialize
feed-serialize_all_example =
    feed-serialize_all bytes (packet ∷ []) (61 ∷ 35 ∷ [])
      ((66 ∷ 64 ∷ 33 ∷ 64 ∷ 97 ∷ 64 ∷ []) ∷ (46 ∷ 64 ∷ 126 ∷ 43 ∷ 33 ∷ []) ∷ [])
      (packet-IsWritable, tt) refl

feed-eq-shift_example :
    feed bytes (enter_start bytes) ((64 ∷ []) ∷ (97 ∷ 64 ∷ []) ∷ [])
    ≡ shift bytes (enter_start bytes) (64 ∷ 97 ∷ 64 ∷ [])
feed-eq-shift_example = feed-eq-shift bytes (enter_start bytes) (64 ∷ []) ((97 ∷ 64 ∷ []) ∷ [])

feed-start-IsSound_example :
    IsSound bytes (feed bytes (enter_start bytes) ((61 ∷ 61 ∷ []) ∷ (33 ∷ []) ∷ []))
feed-start-IsSound_example = feed-start-IsSound bytes ((61 ∷ 61 ∷ []) ∷ (33 ∷ []) ∷ [])
