-- ===== src/Graph/Tests.antt =====
-- Runs of the graph and of its features on small inputs.
use pay_shield.Prelude.{
  ℕ, ◌≡◌, refl, String, none, some, List, [], ◌∷◌, ◌⊎◌, inr, length, str_eq, if◌then◌else◌,
}
use pay_shield.Prelude.Int.{ℤ, pos}
use pay_shield.Prelude.Float.Fixed.{fixed}
use pay_shield.Graph.Nx.{text_value, Nx}
use pay_shield.Graph.Listed.{Listed, listed, listed-IsNx}
use pay_shield.Graph.Live.{LiveTxn, build_all}
use pay_shield.Graph.Kinds.{NodeKind, transaction_node, user_node, merchant_node, device_node}
use pay_shield.Graph.Patterns.{mutual_partners, extract_merchant_concentration}
use pay_shield.Graph.Sharing.{extract_device_sharing_depth}
use pay_shield.Graph.Walks.{IsDepth, extract_device_sharing_depth-IsDepth}
use pay_shield.Graph.Blind.{build_all-blind}

abbrev nx : Nx ℤ (Listed ℤ)
nx = listed

-- two users who pay one merchant from one device, the second of them the first
abbrev paid : String → String → LiveTxn ℤ
paid txn user = record {
  txn_id = some txn;
  user_id = some user;
  merchant_id = some "m1";
  device_fingerprint = some "d1";
  amount = some (pos 1_000_000);
  timestamp = some "2026-01-01T10:00:00";
  txn_type = some "P2P";
  counterparty_user_id = some "u1";
  rest = [];
}

abbrev live : List (LiveTxn ℤ)
live = paid "t1" "u1" ∷ paid "t2" "u2" ∷ []

abbrev kind : String → NodeKind
kind n =
    if str_eq n "m1"
    then merchant_node
    else if str_eq n "d1"
    then device_node
    else if str_eq n "t1"
    then transaction_node
    else if str_eq n "t2"
    then transaction_node
    else user_node

build_all-blind_example :
    (extract_merchant_concentration nx (build_all nx nx.empty live) "u1" ≡ pos 0)
    × ((mutual_partners nx (build_all nx nx.empty live) "u1" "u2" ≡ none)
        ⊎ (mutual_partners nx (build_all nx nx.empty live) "u1" "u2" ≡ some []))
    × (extract_device_sharing_depth nx
          (build_all nx nx.empty live)
          (length (nx.nodes (build_all nx nx.empty live)))
          "u1"
        ≡ some 0)
build_all-blind_example =
    build_all-blind nx listed-IsNx kind live "u1" "u2"
      (
        (refl, inr refl, inr refl, inr refl, inr refl),
        ((refl, inr refl, inr refl, inr refl, inr refl), tt),
      )
      refl refl

-- a device that two users are next to
abbrev shared : Listed ℤ
shared = record {
  items =
      ("u1", ("node_type", text_value "User") ∷ [])
      ∷ ("u2", ("node_type", text_value "User") ∷ [])
      ∷ ("d1", ("node_type", text_value "Device") ∷ [])
      ∷ [];
  links =
      record { src = "u1"; dst = "d1"; edge_type = "used" }
      ∷ record { src = "u2"; dst = "d1"; edge_type = "used" }
      ∷ [];
}

extract_device_sharing_depth-IsDepth_example :
    (d : ℕ) × (extract_device_sharing_depth nx shared (length (nx.nodes shared)) "u1" ≡ some d)
    × IsDepth nx shared "u1" d
extract_device_sharing_depth-IsDepth_example =
    extract_device_sharing_depth-IsDepth nx shared "u1" listed-IsNx
