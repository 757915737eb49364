-- ===== src/FlowLog/Addr.antt =====
-- internal/flowlog/addr.go, and the texts of addresses that internal/stats/vpc.go uses as keys.
use ctaudit.Prelude.{Word, Bool, not, ◌&&◌, List, [], ◌∷◌, map, any_of}
use ctaudit.Text.{Str, codes}
use ctaudit.Map.{Comparable}
use ctaudit.FlowLog.{Net}

-- netip.MustParsePrefix, whose arguments are all literals that parse, the texts of an address and
-- of an address with a port, and `==` on addresses.
pub record NetTexts (net : Net) : Type 0 where
  pub must_parse_prefix : Str → net.Prefix
  pub addr_string : net.Addr → Str
  pub addr_port_string : net.Addr → Word → Str
  pub comparable_addr : Comparable net.Addr

unfoldable pub private_net_texts : List Str
unfolding codes
private_net_texts =
    codes "10.0.0.0/8"
    ∷ codes "172.16.0.0/12"
    ∷ codes "192.168.0.0/16"
    ∷ codes "100.64.0.0/10"
    ∷ codes "169.254.0.0/16"
    ∷ codes "127.0.0.0/8"
    ∷ codes "fc00::/7"
    ∷ codes "fe80::/10"
    ∷ codes "::1/128"
    ∷ []

module _ (net : Net) (texts : NetTexts net) where
  -- privateNets
  unfoldable pub private_nets : List net.Prefix
  private_nets = map texts.must_parse_prefix private_net_texts

  -- IsPrivate(a)
  unfoldable pub is_private : net.Addr → Bool
  is_private a = net.is_valid a && any_of (λ p. net.prefix_contains p (net.unmap a)) private_nets

  -- IsPublic(a)
  unfoldable pub is_public : net.Addr → Bool
  is_public a =
      let b = net.unmap a in
      net.is_valid b && not (is_private b) && not (net.is_unspecified b) && not (net.is_multicast b)
