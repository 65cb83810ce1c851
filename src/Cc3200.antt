-- ===== src/Cc3200.antt =====
-- The CC3200 sample, cc3200-sample/freertos_thingsdk_demo. Its parts are Sockets, the environment;
-- Light, the handlers of the smart light; and Wlan, the network events and the start.
pub mod Sockets
pub mod Light
pub mod Wlan
