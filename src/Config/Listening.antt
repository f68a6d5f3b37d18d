-- ===== src/Config/Listening.antt =====
-- Who may change how this machine listens (src/http/config.rs, src/http/network.rs).
use linggen_memory.Prelude.{
  ℕ, sym, subst, ◌≤◌, ◌≡◌, inl, inr, Bool, Bool-cases, true, false, Option, some, List, [], ◌∷◌,
  All, ltb, arith, if◌then◌else◌,
}
use linggen_memory.Local.{IpAddr, HeaderMap, require_local}
use linggen_memory.Config.{
  Network, Config, ConfigReply, config, network, forbidden, view, saved_as, load, is_in_range,
  put_config, put_network,
}

-- What changes the settings: a device sends all of them, or a choice of network.
pub data Setting (port : ℕ) : Type 0 where
  sent : (saved : Bool) → Config → Setting port
  chosen : (saved : Bool) → (peer : IpAddr) → HeaderMap → (bound : IpAddr) → Network → Setting port

module _ (port : ℕ) where
  abbrev set_one : Setting port → Option Config → Option Config
  set_one (sent saved cfg) file = (put_config saved cfg file).1
  set_one (chosen saved peer headers bound choice) file =
      (put_network saved peer headers port bound choice file).1

  unfoldable pub set_all : List (Setting port) → Option Config → Option Config
  set_all [] file = file
  set_all (s ∷ ss) file = set_all ss (set_one s file)

  abbrev pub IsRefused : Setting port → Type 0
  IsRefused (sent saved cfg) = Unit
  IsRefused (chosen saved peer headers bound choice) = require_local peer headers port ≡ false

  -- Settings that may be kept, and the choice of network that they hold.
  abbrev pub IsKept : Network → Option Config → Type 0
  IsKept choice file =
      ((load file).network ≡ choice)
      × ((load file).episodic_ttl_days ≤ 3650)
      × (is_in_range (load file).recall_min_score ≡ true)

  saved-IsKept :
      (saved : Bool) (reply : ConfigReply) (cfg : Config) (choice : Network) (file : Option Config)
      → IsKept choice (some cfg)
      → IsKept choice file
      → IsKept choice (saved_as saved reply cfg file).1
  saved-IsKept true reply cfg choice file h k = h
  saved-IsKept false reply cfg choice file h k = k

  put_config-IsKept :
      (saved : Bool) (cfg : Config) (choice : Network) (file : Option Config)
      → IsKept choice file
      → IsKept choice (put_config saved cfg file).1
  unfolding put_config
  put_config-IsKept saved cfg choice file h = elim (Bool-cases (ltb 3650 cfg.episodic_ttl_days)) [
    | inl long ↦ rw long h
    | inr short ↦ elim (Bool-cases (is_in_range cfg.recall_min_score)) [
      | inl fits ↦ rw short (
          rw fits (
            saved-IsKept saved (config (record cfg { network = (load file).network }))
              (record cfg { network = (load file).network }) choice file
              (h.0, ground (arith, short), fits) h))
      | inr out ↦ rw short (rw out h)
    ]
  ]

  put_network-IsKept :
      (saved : Bool) (peer : IpAddr) (headers : HeaderMap) (bound : IpAddr) (other choice : Network)
      (file : Option Config)
      → require_local peer headers port ≡ false
      → IsKept choice file
      → IsKept choice (put_network saved peer headers port bound other file).1
  unfolding put_network
  put_network-IsKept saved peer headers bound other choice file r h =
      let cfg : Config = record (load file) { network = other } in
      subst
        (λ b.
          IsKept choice
            (if b
              then saved_as saved (network (view other bound)) cfg file
              else (forbidden, file)).1)
        (sym r) h

  set_one-IsKept :
      (s : Setting port) (choice : Network) (file : Option Config)
      → IsRefused s
      → IsKept choice file
      → IsKept choice (set_one s file)
  set_one-IsKept (sent saved cfg) choice file r h = put_config-IsKept saved cfg choice file h
  set_one-IsKept (chosen saved peer headers bound other) choice file r h =
      put_network-IsKept saved peer headers bound other choice file r h

  -- However many devices send settings, and however many choices of network come that the local check
  -- refuses, in any order and whatever is saved: the choice of network stays, and settings within their
  -- bounds stay within them.
  pub set_all-IsKept :
      (ss : List (Setting port)) (choice : Network) (file : Option Config)
      → All IsRefused ss
      → IsKept choice file
      → IsKept choice (set_all ss file)
  unfolding set_all
  set_all-IsKept [] choice file r h = h
  set_all-IsKept (s ∷ ss) choice file r h =
      set_all-IsKept ss choice (set_one s file) r.1 (set_one-IsKept s choice file r.0 h)
