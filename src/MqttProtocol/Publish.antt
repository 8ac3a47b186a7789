-- ===== src/MqttProtocol/Publish.antt =====
-- A publish of one MQTT client as another one gets it.
use knotfreeiot.Base.{◌≡◌, Bytes, false, [], ◌∷◌}
use knotfreeiot.Base.Keys.{bytes_beq, bytes_eq}
use knotfreeiot.MqttProtocol.Down.{UserProps}

-- No user property has this key.
abbrev pub Lacks : Bytes → UserProps → Type 0
Lacks key [] = Unit {0}
Lacks key ((k, v) ∷ more) = (bytes_beq k key ≡ false) × Lacks key more
