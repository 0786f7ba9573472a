-- ===== src/Wg/Netstack/Setup.antt =====
-- pkg/wg/netstack.go, `NewNetstack`, `TCPIPError` and the getters of tun.Device.
use point_c.Base.{
  ℕ, ◌*◌, ◌^◌, ◌<◌, ◌≡◌, refl, Bool, true, Option, Option-cases, none, some, List, [], ◌∷◌, ◌++◌,
  Bytes, codes, ◌⊎◌, inl, inr, All, arith,
}
use point_c.Strconv.Int.{ℤ, pos}
use point_c.Wg.Netstack.Dial.{u32_mod, wrap}
use point_c.Wg.Netstack.Lifecycle.{TunEvent, event_up, started}

-- `header.IPv4EmptySubnet` and `header.IPv6EmptySubnet`.
pub data Subnet : Type 0 where
  ipv4_empty ipv6_empty : Subnet

-- The calls that configure the stack and its endpoint.
pub data StackCall : Type 0 where
  add_notify : StackCall
  enable_sack : StackCall
  create_nic : ℕ → StackCall
  set_spoofing : ℕ → Bool → StackCall
  set_promiscuous : ℕ → Bool → StackCall
  add_route : Subnet → ℕ → StackCall

-- What gVisor returns: the errors of two calls, if they fail, and `UniqueID`.
pub record StackEnv : Type 0 where
  pub sack_error : Option ℕ
  pub unique_id : ℕ
  pub nic_error : Option ℕ

-- `TCPIPError`, with the text of gVisor's error as `Error`.
pub record TcpipError : Type 0 where
  pub err : ℕ

abbrev pub error_text : (ℕ → Bytes) → TcpipError → Bytes
error_text string e = string e.err

-- What `NewNetstack` makes: the sizes of the endpoint, and the fields of `Netstack`.
pub record Device : Type 0 where
  pub mtu : ℤ
  pub link_mtu : ℕ
  pub channel_size : ℤ
  pub batch_size : ℤ
  pub default_nic : ℕ
  pub events : List TunEvent

-- From the creation of the NIC on, behind these calls.
add_nic : StackEnv → ℤ → ℤ → ℤ → List StackCall → List StackCall × (Device ⊎ TcpipError)
add_nic env mtu batch_size channel_size calls = elim env.nic_error [
  | some e ↦ (calls ++ create_nic env.unique_id ∷ [], inr (record { err = e }))
  | none ↦ (
    calls
        ++ create_nic env.unique_id
          ∷ set_spoofing env.unique_id true
          ∷ set_promiscuous env.unique_id true
          ∷ add_route ipv4_empty env.unique_id
          ∷ add_route ipv6_empty env.unique_id
          ∷ [],
    inl (record {
      mtu = mtu;
      link_mtu = wrap u32_mod mtu;
      channel_size = channel_size;
      batch_size = batch_size;
      default_nic = env.unique_id;
      events = event_up ∷ [];
    }),
  )
]

-- `NewNetstack`.
unfoldable pub new_netstack : StackEnv → ℤ → ℤ → ℤ → List StackCall × (Device ⊎ TcpipError)
unfolding add_nic
new_netstack env mtu batch_size channel_size = elim env.sack_error [
  | some e ↦ (add_notify ∷ enable_sack ∷ [], inr (record { err = e }))
  | none ↦ add_nic env mtu batch_size channel_size (add_notify ∷ enable_sack ∷ [])
]

-- The constants, for `device.DefaultMTU` and `conn.IdealBatchSize`.
unfoldable pub new_default_netstack : StackEnv → ℕ → ℕ → List StackCall × (Device ⊎ TcpipError)
unfolding new_netstack
new_default_netstack env default_mtu ideal_batch_size =
    new_netstack env (pos default_mtu) (pos ideal_batch_size) (pos (8 * ideal_batch_size))

-- `Name`, `MTU` and `BatchSize`; none of them fails.
abbrev pub device_name : Device → Bytes
device_name d = codes "point-c"

abbrev pub get_mtu : Device → ℤ
get_mtu d = d.mtu

abbrev pub get_batch_size : Device → ℤ
get_batch_size d = d.batch_size

-- The call is about the NIC, or about none.
abbrev pub Concerns : ℕ → StackCall → Type 0
Concerns nic add_notify = Unit {0}
Concerns nic enable_sack = Unit {0}
Concerns nic (create_nic n) = n ≡ nic
Concerns nic (set_spoofing n b) = (n ≡ nic) × (b ≡ true)
Concerns nic (set_promiscuous n b) = (n ≡ nic) × (b ≡ true)
Concerns nic (add_route s n) = n ≡ nic

-- The subnets that are routed, in their order.
abbrev pub routed : List StackCall → List Subnet
routed [] = []
routed (add_route s n ∷ cs) = s ∷ routed cs
routed (add_notify ∷ cs) = routed cs
routed (enable_sack ∷ cs) = routed cs
routed (create_nic n ∷ cs) = routed cs
routed (set_spoofing n b ∷ cs) = routed cs
routed (set_promiscuous n b ∷ cs) = routed cs

-- `NewNetstack` fails with the first error of the stack, and has routed nothing then. If there is
-- none, the device is in the state that its goroutines start from, all its NIC calls are about its
-- own NIC, which spoofs and is promiscuous, both families are routed out of it, and an MTU below
-- 2^32 is the link's.
pub new_netstack_lem :
    (env : StackEnv) (mtu : ℕ) (batch_size channel_size : ℤ)
    → mtu < 2 ^ 32
    → (let (calls, r) = new_netstack env (pos mtu) batch_size channel_size in
        ((d : Device) × (r ≡ inl d)
          × (env.sack_error ≡ none)
          × (env.nic_error ≡ none)
          × All (Concerns d.default_nic) calls
          × (routed calls ≡ ipv4_empty ∷ ipv6_empty ∷ [])
          × (d.events ≡ started.events)
          × (d.link_mtu ≡ mtu)
          × (get_mtu d ≡ pos mtu)
          × (get_batch_size d ≡ batch_size))
        ⊎ ((e : ℕ) × (r ≡ inr (record { err = e }))
            × ((env.sack_error ≡ some e) ⊎ ((env.sack_error ≡ none) × (env.nic_error ≡ some e)))
            × (routed calls ≡ [])))
unfolding new_netstack add_nic
new_netstack_lem env mtu batch_size channel_size h = elim (Option-cases env.sack_error) [
  | inr (e, s) ↦ simp (s, new_netstack) (inr (e, refl, inl refl, refl))
  | inl s ↦ elim (Option-cases env.nic_error) [
    | inr (e, n) ↦ simp (s, n, new_netstack, add_nic) (inr (e, refl, inr (refl, refl), refl))
    | inl n ↦
        simp (s, n, new_netstack, add_nic)
          (inl (
            (
              record {
                mtu = pos mtu;
                link_mtu = wrap u32_mod (pos mtu);
                channel_size = channel_size;
                batch_size = batch_size;
                default_nic = env.unique_id;
                events = event_up ∷ [];
              },
              refl,
              refl,
              refl,
              (tt, (tt, (refl, ((refl, refl), ((refl, refl), (refl, (refl, tt))))))),
              refl,
              refl,
              omega arith,
              refl,
              refl,
            )))
  ]
]
