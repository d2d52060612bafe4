-- ===== src/Net.antt =====
-- include/netif.h, include/ip.h, include/route.h: the structures that the layers hand around.
-- A pointer to a device is its `id`; a packet is the structure with its IP header taken apart.
use tapip.Base.{ℕ, ◌+◌, ◌*◌, ◌/◌, ◌%◌, ◌^◌, List, [], ◌∷◌, ◌++◌, Option, Bool, ◌==◌, bit_and, htons}
use tapip.Checksum.{ip_chksum}

pub record Netdev : Type 0 where
  pub id : ℕ
  pub net_mtu : ℕ
  pub net_ipaddr : ℕ
  pub net_mask : ℕ
  pub net_hwaddr : List ℕ

pub record Rtentry : Type 0 where
  pub rt_net : ℕ
  pub rt_netmask : ℕ
  pub rt_gw : ℕ
  pub rt_flags : ℕ
  pub rt_metric : ℕ
  pub rt_dev : Netdev

abbrev pub rt_none : ℕ
rt_none = 0

abbrev pub rt_localhost : ℕ
rt_localhost = 1

abbrev pub rt_default : ℕ
rt_default = 2

-- struct ip, with the options that iphlen counts and the data behind them
pub record Ip : Type 0 where
  pub ip_hlen : ℕ
  pub ip_ver : ℕ
  pub ip_tos : ℕ
  pub ip_len : ℕ
  pub ip_id : ℕ
  pub ip_fragoff : ℕ
  pub ip_ttl : ℕ
  pub ip_pro : ℕ
  pub ip_cksum : ℕ
  pub ip_src : ℕ
  pub ip_dst : ℕ
  pub ip_opts : List ℕ
  pub ip_data : List ℕ

abbrev pub ip_hrd_sz : ℕ
ip_hrd_sz = 20

abbrev pub eth_hrd_sz : ℕ
eth_hrd_sz = 14

abbrev pub eth_p_ip : ℕ
eth_p_ip = 0x0800

abbrev pub eth_p_arp : ℕ
eth_p_arp = 0x0806

abbrev pub ip_frag_df : ℕ
ip_frag_df = 0x4000

abbrev pub ip_frag_mf : ℕ
ip_frag_mf = 0x2000

abbrev pub ip_frag_off : ℕ
ip_frag_off = 0x1fff

abbrev pub iphlen : Ip → ℕ
iphlen h = h.ip_hlen * 4

-- ipoff, of a header in host order: the low 13 bits in units of 8 bytes
abbrev pub ipoff : Ip → ℕ
ipoff h = h.ip_fragoff % 2 ^ 13 * 8

-- ip_ntoh and ip_hton: both swap the three fields
unfoldable pub ip_ntoh : Ip → Ip
ip_ntoh h = record h {
  ip_len = htons h.ip_len;
  ip_id = htons h.ip_id;
  ip_fragoff = htons h.ip_fragoff;
}

-- the bytes of a header as they lie in memory
abbrev pub word_bytes : ℕ → List ℕ
word_bytes w = w % 2 ^ 8 ∷ (w / 2 ^ 8 % 2 ^ 8) ∷ []

abbrev pub long_bytes : ℕ → List ℕ
long_bytes w = word_bytes w ++ word_bytes (w / 2 ^ 16)

unfoldable pub ip_bytes : Ip → List ℕ
ip_bytes h =
    (h.ip_ver * 16 + h.ip_hlen) ∷ h.ip_tos ∷ word_bytes h.ip_len
    ++ (word_bytes h.ip_id
        ++ (word_bytes h.ip_fragoff
            ++ (h.ip_ttl ∷ h.ip_pro ∷ word_bytes h.ip_cksum
                ++ (long_bytes h.ip_src ++ (long_bytes h.ip_dst ++ h.ip_opts)))))

-- ip_set_checksum on the structure
unfoldable pub ip_set_checksum : Ip → Ip
unfolding ip_bytes ip_chksum
ip_set_checksum h =
    let cleared = record h { ip_cksum = 0 } in
    record h { ip_cksum = ip_chksum (ip_bytes cleared) (iphlen cleared) }

-- MULTICAST, of an address in network order on a little-endian host
abbrev pub is_multicast : ℕ → Bool
is_multicast netip = bit_and 0x000000f0 netip == 0x000000e0

pub data PkType : Type 0 where
  pkt_none pkt_localhost pkt_otherhost pkt_multicast pkt_broadcast : PkType

-- struct pkbuf with an IP packet in it
pub record Pkbuf : Type 0 where
  pub pk_pro : ℕ
  pub pk_type : PkType
  pub pk_len : ℕ
  pub pk_indev : Option Netdev
  pub pk_rtdst : Option Rtentry
  pub ip : Ip

-- struct arp, its fields as arp_hton leaves them
pub record Arp : Type 0 where
  pub arp_hrd : ℕ
  pub arp_pro : ℕ
  pub arp_hrdlen : ℕ
  pub arp_prolen : ℕ
  pub arp_op : ℕ
  pub arp_sha : List ℕ
  pub arp_sip : ℕ
  pub arp_tha : List ℕ
  pub arp_tip : ℕ

-- What a handler lets out, in order: a packet given to a device by netdev_tx, which frees it (with
-- the type field and the hardware address that it is sent to), a packet freed unsent, and the mark
-- of a null pointer that the code follows.
pub data Event : Type 0 where
  tx_ip : Netdev → Pkbuf → ℕ → List ℕ → Event
  tx_arp : Netdev → Arp → List ℕ → Event
  freed : Pkbuf → Event
  freed_arp : Arp → Event
  fault : Event
