-- ===== src/DataIngestion/Defaults.antt =====
-- mqtt_subscriber.py: the defaults of the fields that a message lacks.
use g_io_t_edge_gateway.Prelude.{
  List, Option, String, arith, nat_eq, none, refl, some, string_eq, true, ◌∙◌, ◌≡◌,
}
use g_io_t_edge_gateway.Dict.{Dict, lookup}
use g_io_t_edge_gateway.Dict.Laws.{lookup-insert}
use g_io_t_edge_gateway.Shared.Telemetry.{Codec}
use g_io_t_edge_gateway.DataIngestion.Ingest.{
  Bodies, has, sensor_data, set_default, topic_device_id, with_defaults, with_device_id,
}

module _ (c : Codec) (b : Bodies c) where
  set_default-has :
      (k : String) (v : b.Value) (d : Dict String b.Value)
      → has c b k (set_default c b k v d) ≡ true
  set_default-has k v d = ground (arith, lookup-insert k k v d, string_eq.beq_iff k k)

  -- A key that is there keeps its value.
  set_default-keeps :
      (k j : String) (v : b.Value) (d : Dict String b.Value)
      → has c b j d ≡ true
      → lookup j (set_default c b k v d) ≡ lookup j d
  set_default-keeps k j v d h = ground (arith, h, lookup-insert k j v d, string_eq.beq_iff k j)

  with_device_id-keeps :
      (o : Option String) (j : String) (d : Dict String b.Value)
      → has c b j d ≡ true
      → lookup j (with_device_id c b o d) ≡ lookup j d
  with_device_id-keeps none j d h = refl
  with_device_id-keeps (some id) j d h =
      ground (arith, h, set_default-keeps "device_id" j (b.text id) d)

  lookup-has :
      (j : String) (d d' : Dict String b.Value)
      → lookup j d' ≡ lookup j d
      → has c b j d ≡ true
      → has c b j d' ≡ true
  lookup-has j d d' e h = rw (e, has) h

  -- The body that is validated has a device type, a time and a payload, and each key of the message
  -- with its own value.
  pub with_defaults_lem :
      (topic_parts : List String) (utcnow key : String) (d : Dict String b.Value)
      → has c b key d ≡ true
      → (has c b "device_type" (with_defaults c b topic_parts utcnow d) ≡ true)
        × (has c b "timestamp" (with_defaults c b topic_parts utcnow d) ≡ true)
        × (has c b "payload" (with_defaults c b topic_parts utcnow d) ≡ true)
        × (lookup key (with_defaults c b topic_parts utcnow d) ≡ lookup key d)
  unfolding with_defaults
  with_defaults_lem topic_parts utcnow key d h =
      let d1 : Dict String b.Value = with_device_id c b (topic_device_id c b topic_parts) d in
      let d2 : Dict String b.Value = set_default c b "device_type" (b.text "unknown") d1 in
      let d3 : Dict String b.Value = set_default c b "timestamp" (b.text utcnow) d2 in
      let body : b.Value = b.object (sensor_data c b d3) in
      let e1 = with_device_id-keeps (topic_device_id c b topic_parts) key d h in
      let h1 = lookup-has key d d1 e1 h in
      let e2 = set_default-keeps "device_type" key (b.text "unknown") d1 h1 in
      let h2 = lookup-has key d1 d2 e2 h1 in
      let e3 = set_default-keeps "timestamp" key (b.text utcnow) d2 h2 in
      let h3 = lookup-has key d2 d3 e3 h2 in
      let type2 = set_default-has "device_type" (b.text "unknown") d1 in
      let type3 =
        lookup-has "device_type" d2 d3
          (set_default-keeps "timestamp" "device_type" (b.text utcnow) d2 type2) type2 in
      let time3 = set_default-has "timestamp" (b.text utcnow) d2 in
      (
        lookup-has "device_type" d3 _ (set_default-keeps "payload" "device_type" body d3 type3)
            type3,
        lookup-has "timestamp" d3 _ (set_default-keeps "payload" "timestamp" body d3 time3) time3,
        set_default-has "payload" body d3,
        set_default-keeps "payload" key body d3 h3 ∙ e3 ∙ e2 ∙ e1,
      )
