-- ===== src/Btp/Ports.antt =====
-- The port registry of src/flexstack/btp/router.py.
use flex_stack.Prelude.{
  ℕ, ◌≡◌, refl, List, [], ◌∷◌, ◌==◌, Option, none, some, Result, ok, ◌>>=◌, if◌then◌else◌, arith,
}
use flex_stack.Btp.{port_get, port_set, Router, register_indication_callback_btp}

module _ {ℓ} {Callback : Type ℓ} where
  port_get-port_set :
      (port other : ℕ) (callback : Callback) (ports : List (ℕ × Callback))
      → port_get other (port_set port callback ports)
        ≡ (if port == other then some callback else port_get other ports)
  port_get-port_set port other callback [] = refl
  port_get-port_set port other callback ((p, c) ∷ ports) =
      ground (arith, port_get-port_set port other callback ports)

  -- The callback of the last registration for a port, or else what is given.
  abbrev pub last_for : ℕ → List (ℕ × Callback) → Option Callback → Option Callback
  last_for port [] before = before
  last_for port ((p, callback) ∷ rest) before =
      last_for port rest (if p == port then some callback else before)

module _ {ℓ} (Callback : Type ℓ) where
  unfoldable pub register_all : List (ℕ × Callback) → Router Callback → Result (Router Callback)
  register_all [] r = ok r
  register_all ((port, callback) ∷ rest) r =
      register_indication_callback_btp Callback port callback r >>= register_all rest

  -- The callbacks for each port after the registrations, as a list that is never frozen.
  pub ports_after : List (ℕ × Callback) → List (ℕ × Callback) → List (ℕ × Callback)
  ports_after [] ports = ports
  ports_after ((port, callback) ∷ rest) ports = ports_after rest (port_set port callback ports)

  pub register_all-open :
      (rs ports : List (ℕ × Callback))
      → register_all rs (record { pre_indication_callbacks = ports; indication_callbacks = none })
        ≡ ok (record {
          pre_indication_callbacks = ports_after rs ports;
          indication_callbacks = none;
        })
  unfolding register_all register_indication_callback_btp ports_after
  register_all-open [] ports = refl
  register_all-open ((port, callback) ∷ rest) ports =
      register_all-open rest (port_set port callback ports)

  pub port_get-ports_after :
      (port : ℕ) (rs ports : List (ℕ × Callback))
      → port_get port (ports_after rs ports) ≡ last_for port rs (port_get port ports)
  unfolding ports_after
  port_get-ports_after port [] ports = refl
  port_get-ports_after port ((p, callback) ∷ rest) ports =
      rw
        (
          port_get-ports_after port rest (port_set p callback ports),
          port_get-port_set p port callback ports,
        )
        refl
