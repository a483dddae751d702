-- ===== src/Tunnel.antt =====
-- webrtc-tunnel/src/main.rs: the channels of a configuration file, and how reliable they are.
pub mod Udp
pub mod Routing
pub mod Zeros
pub mod Serve
pub mod Sockets
pub mod Reached
pub mod Journey
mod Journeys
pub mod Answered
pub mod ServerCommand
pub mod Main
pub mod Access
pub mod Open
pub mod Tcp
pub mod Command
pub mod Forward
pub mod Carry
pub mod Pump
mod Tests
mod Scenarios
mod Visits
pub mod Delivery
use Prim.Native.String.{String}
use mangle_webrtc.Common.{ℕ, Option, none, some}
use mangle_webrtc.Channels.{
  RtcDataChannelInit, udp_data_channel, tcp_data_channel, reliable_unordered_data_channel,
}

abbrev pub udp_packet_size : ℕ
udp_packet_size = 512

pub data Quality : Type 0 where
  udp tcp reliable_unordered : Quality

-- `Into<RTCDataChannelInit> for Quality`.
unfoldable pub to_init : Quality → RtcDataChannelInit
to_init udp = udp_data_channel
to_init tcp = tcp_data_channel
to_init reliable_unordered = reliable_unordered_data_channel

-- A `NonZeroU16` is a number: nothing here depends on its range.
pub data Channel : Type 0 where
  udp_channel : ℕ → Option ℕ → Option Quality → Channel
  tcp_channel : ℕ → Option ℕ → Option Quality → Channel
  local_socket : String → Option String → Option Quality → Channel

-- `Option::unwrap_or`.
abbrev pub unwrap_or {ℓ} : {A : Type ℓ} → Option A → A → A
unwrap_or none d = d
unwrap_or (some a) d = a
