-- ===== src/Channels.antt =====
-- upgrade2webrtc/src/lib.rs: the configurations of data channels, and the STUN servers.
use Prim.Native.String.{String}
use mangle_webrtc.Common.{ℕ, Bool, true, false, Option, none, some, List, [], ◌∷◌}

-- `RTCDataChannelInit` of the webrtc crate, with the fields that the source names.
pub record RtcDataChannelInit : Type 0 where
  pub ordered : Option Bool
  pub max_packet_life_time : Option ℕ
  pub max_retransmits : Option ℕ
  pub protocol : Option String
  pub negotiated : Option ℕ

abbrev pub u16_max : ℕ
u16_max = 65535

abbrev pub tcp_data_channel : RtcDataChannelInit
tcp_data_channel = record {
  ordered = some true;
  max_packet_life_time = none;
  max_retransmits = some u16_max;
  protocol = none;
  negotiated = none;
}

abbrev pub udp_data_channel : RtcDataChannelInit
udp_data_channel = record {
  ordered = some false;
  max_packet_life_time = none;
  max_retransmits = some 0;
  protocol = none;
  negotiated = none;
}

abbrev pub reliable_unordered_data_channel : RtcDataChannelInit
reliable_unordered_data_channel = record {
  ordered = some false;
  max_packet_life_time = none;
  max_retransmits = some u16_max;
  protocol = none;
  negotiated = none;
}

-- `STUN_SERVERS`.
abbrev pub stun_servers : List String
stun_servers =
    "stun:stun.l.google.com:19302" ∷ "stun:stun1.l.google.com:19302"
    ∷ "stun:stun2.l.google.com:19302" ∷ "stun:stun3.l.google.com:19302"
    ∷ "stun:stun4.l.google.com:19302" ∷ "stun:stun01.sipphone.com" ∷ "stun:stun.ekiga.net"
    ∷ "stun:stun.fwdnet.net" ∷ "stun:stun.ideasip.com" ∷ "stun:stun.iptel.org"
    ∷ "stun:stun.rixtelecom.se" ∷ "stun:stun.schlund.de" ∷ "stun:stunserver.org"
    ∷ "stun:stun.softjoys.com" ∷ "stun:stun.voiparound.com" ∷ "stun:stun.voipbuster.com"
    ∷ "stun:stun.voipstunt.com" ∷ "stun:stun.voxgratia.org" ∷ "stun:stun.xten.com" ∷ []
