-- ===== src/Geonet/Mib.antt =====
-- src/flexstack/geonet/mib.py: the constants of the Management Information Base that the modelled
-- code reads. The others are read by no modelled operation.
use flex_stack.Prelude.{ℕ}
use flex_stack.Geonet.Address.{GnAddress}

pub data GnIsMobile : Type 0 where
  stationary mobile : GnIsMobile

abbrev pub is_mobile_value : GnIsMobile → ℕ
is_mobile_value stationary = 0
is_mobile_value mobile = 1

pub data GnSecurity : Type 0 where
  disabled enabled : GnSecurity

pub data AreaForwardingAlgorithm : Type 0 where
  unspecified simple cbf : AreaForwardingAlgorithm

pub record Mib : Type 0 where
  pub its_gn_local_gn_addr : GnAddress
  pub its_gn_protocol_version : ℕ
  pub its_gn_is_mobile : GnIsMobile
  pub its_gn_lifetime_loc_te : ℕ
  pub its_gn_security : GnSecurity
  pub its_gn_default_hop_limit : ℕ
  pub its_gn_dpl_length : ℕ
  pub its_gn_default_packet_lifetime : ℕ
  pub its_gn_max_packet_data_rate : ℕ
  pub its_gn_max_packet_data_rate_ema_beta : ℕ
  pub its_gn_area_forwarding_algorithm : AreaForwardingAlgorithm
  pub its_gn_max_geo_area_size : ℕ
  pub its_gn_cbf_min_time : ℕ
  pub its_gn_cbf_max_time : ℕ
  pub its_gn_default_max_communication_range : ℕ
  pub its_gn_location_service_max_retrans : ℕ
