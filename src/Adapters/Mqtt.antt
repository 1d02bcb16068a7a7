-- ===== src/Adapters/Mqtt.antt =====
-- adapters/mqtt: the generic MQTT adapter, its field mapping and its connection.
pub mod Mapping
pub mod Connection
