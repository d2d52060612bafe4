-- ===== src/Ip/Frag.antt =====
-- ip/ip_frag.c and struct fragment of include/ip.h: putting fragments together.
-- A pointer to a table entry is the table taken apart at it.
pub mod Cut
mod Insert
pub mod Join
mod Tests
pub mod Trip
pub mod Held
pub mod Timer
use tapip.Base.{
  ℕ, zero, suc, ◌+◌, ◌-◌, ◌*◌, ◌/◌, ◌%◌, ◌^◌, List, [], ◌∷◌, ◌++◌, Option, none, some, Bool, true,
  false, ◌==◌, ltb, if◌then◌else◌, ◌&&◌, not, take, drop, add32, htons,
}
use tapip.Net.{
  Netdev, Rtentry, Ip, Pkbuf, PkType, pkt_none, Event, freed, fault, iphlen, ipoff, ip_set_checksum,
  ip_hrd_sz, eth_hrd_sz, eth_p_ip,
}

-- The flags are taken apart into frag_complete, frag_first_in and frag_last_in. The time to live
-- falls below 0 only as the entry is deleted.
pub record Fragment : Type 0 where
  pub frag_id : ℕ
  pub frag_src : ℕ
  pub frag_dst : ℕ
  pub frag_pro : ℕ
  pub frag_hlen : ℕ
  pub frag_rsize : ℕ
  pub frag_size : ℕ
  pub frag_ttl : ℕ
  pub frag_complete : Bool
  pub frag_first_in : Bool
  pub frag_last_in : Bool
  pub frag_pkb : List Pkbuf

abbrev pub Table : Type 0
Table = List Fragment

abbrev pub full_frag : Fragment → Bool
full_frag frag = frag.frag_first_in && (frag.frag_last_in && frag.frag_rsize == frag.frag_size)

abbrev pub frag_time : ℕ
frag_time = 30

abbrev pub new_frag : Ip → Fragment
new_frag iphdr = record {
  frag_id = iphdr.ip_id;
  frag_src = iphdr.ip_src;
  frag_dst = iphdr.ip_dst;
  frag_pro = iphdr.ip_pro;
  frag_hlen = 0;
  frag_rsize = 0;
  frag_size = 0;
  frag_ttl = frag_time;
  frag_complete = false;
  frag_first_in = false;
  frag_last_in = false;
  frag_pkb = [];
}

-- delete_frag frees the packets of the list, in order.
unfoldable pub delete_frag : List Pkbuf → List Event
delete_frag [] = []
delete_frag (pkb ∷ pkbs) = freed pkb ∷ delete_frag pkbs

-- the bytes behind the first 20 of a packet
abbrev pub ip_rest : Ip → List ℕ
ip_rest h = h.ip_opts ++ h.ip_data

-- The loop that copies the payloads. Its memcpy begins hlen bytes into each packet, whatever that
-- packet's own header length is; `none` is the memcpy of a negative size.
pub copy_frags : ℕ → List Pkbuf → Option (List ℕ)
copy_frags hlen [] = some []
copy_frags hlen (pkb ∷ pkbs) = elim (copy_frags hlen pkbs) [
  | none ↦ none
  | some rest ↦
      if ltb pkb.ip.ip_len hlen
      then none
      else some (take (pkb.ip.ip_len - hlen) (drop (hlen - ip_hrd_sz) (ip_rest pkb.ip)) ++ rest)
]

-- What reass_frag comes to: no packet for one that is too long, a packet, or a stray memcpy.
pub data Reass : Type 0 where
  oversize : Reass
  stray : Reass
  whole : Pkbuf → Reass

-- The list is empty for no complete fragment; the first entry of an empty one is a stray pointer.
unfoldable pub reass_frag : Fragment → Reass
reass_frag frag =
    let len = frag.frag_hlen + frag.frag_size in
    if ltb 65535 len then oversize else elim (frag.frag_pkb) [
      | [] ↦ stray
      | fragpkb ∷ _ ↦ elim (copy_frags frag.frag_hlen frag.frag_pkb) [
        | none ↦ stray
        | some bytes ↦ whole (record {
          pk_pro = eth_p_ip;
          pk_type = pkt_none;
          pk_len = eth_hrd_sz + len;
          pk_indev = none;
          pk_rtdst = none;
          ip = record (fragpkb.ip) {
            ip_fragoff = 0;
            ip_len = len;
            ip_opts = take (frag.frag_hlen - ip_hrd_sz) (ip_rest fragpkb.ip);
            ip_data = bytes;
          };
        })
      ]
    ]

-- The backward search for the place of an offset: none below it, the offset itself, or the list up
-- to the last packet below it, that packet, and the list behind.
pub data Place : Type 0 where
  at_head : Place
  duplicate : Place
  after : List Pkbuf → Pkbuf → List Pkbuf → Place

pub find_place : ℕ → List Pkbuf → Place
find_place off [] = at_head
find_place off (pkb ∷ pkbs) = elim (find_place off pkbs) [
  | at_head ↦
      if off == ipoff pkb.ip
      then duplicate
      else if ltb (ipoff pkb.ip) off
      then after [] pkb pkbs
      else at_head
  | duplicate ↦ duplicate
  | after front found back ↦ after (pkb ∷ front) found back
]

-- the bit IP_FRAG_MF
abbrev pub more_frags : ℕ → ℕ
more_frags fragoff = fragoff / 2 ^ 13 % 2

-- The label frag_out: the list has the packet in it.
abbrev pub frag_out : Pkbuf → Fragment → Fragment
frag_out pkb frag =
    let frag' = record frag {
      frag_rsize = add32 frag.frag_rsize (pkb.ip.ip_len - iphlen pkb.ip);
    } in
    record frag' { frag_complete = full_frag frag' }

abbrev pub insert_last : Pkbuf → Fragment → Bool × Fragment
insert_last pkb frag = if frag.frag_last_in then (false, frag) else (
  true,
  frag_out pkb (record frag {
    frag_last_in = true;
    frag_size = ipoff pkb.ip + pkb.ip.ip_len - iphlen pkb.ip;
    frag_pkb = frag.frag_pkb ++ (pkb ∷ []);
  }),
)

-- the label frag_found, with the list that the packet goes into and the end of the packet before it
abbrev pub insert_found : Pkbuf → Fragment → ℕ → List Pkbuf → Bool × Fragment
insert_found pkb frag end pkbs =
    let hlen = iphlen pkb.ip in
    if not (frag.frag_hlen == 0) && not (frag.frag_hlen == hlen)
    then (false, frag)
    else if ltb (ipoff pkb.ip) (end - hlen)
    then (false, record frag { frag_hlen = hlen })
    else (
      true,
      frag_out pkb (record frag {
        frag_hlen = hlen;
        frag_first_in = if ipoff pkb.ip == 0 then true else frag.frag_first_in;
        frag_pkb = pkbs;
      }),
    )

-- `false` is the -1 of a packet that has been freed.
pub insert_frag : Pkbuf → Fragment → Bool × Fragment
insert_frag pkb frag =
    if frag.frag_complete
    then (false, frag)
    else if more_frags pkb.ip.ip_fragoff == 0
    then insert_last pkb frag
    else elim (find_place (ipoff pkb.ip) frag.frag_pkb) [
      | duplicate ↦ (false, frag)
      | at_head ↦ insert_found pkb frag 0 (pkb ∷ frag.frag_pkb)
      | after front prev back ↦
          insert_found pkb frag (ipoff prev.ip + prev.ip.ip_len) (front ++ (prev ∷ pkb ∷ back))
    ]

abbrev pub is_frag_of : Ip → Fragment → Bool
is_frag_of iphdr frag =
    frag.frag_id == iphdr.ip_id
    && (frag.frag_pro == iphdr.ip_pro
        && (frag.frag_src == iphdr.ip_src && frag.frag_dst == iphdr.ip_dst))

unfoldable pub lookup_frag : Table → Ip → Option (Table × Fragment × Table)
lookup_frag [] iphdr = none
lookup_frag (frag ∷ frags) iphdr =
    if is_frag_of iphdr frag then some ([], frag, frags) else elim (lookup_frag frags iphdr) [
      | none ↦ none
      | some (front, found, back) ↦ some (frag ∷ front, found, back)
    ]

-- The rest of ip_reass, with the table on both sides of the entry.
unfoldable pub reass_in : Pkbuf → Table → Fragment → Table → Table × Option Pkbuf × List Event
reass_in pkb front frag back =
    let (added, frag') = insert_frag pkb frag in
    if added
    then if frag'.frag_complete
      then elim (reass_frag frag') [
        | oversize ↦ (front ++ back, none, delete_frag frag'.frag_pkb)
        | stray ↦ (front ++ back, none, fault ∷ [])
        | whole whole_pkb ↦ (front ++ back, some whole_pkb, delete_frag frag'.frag_pkb)
      ]
      else (front ++ (frag' ∷ back), none, [])
    else (front ++ (frag' ∷ back), none, freed pkb ∷ [])

pub ip_reass : Table → Pkbuf → Table × Option Pkbuf × List Event
ip_reass frags pkb = elim (lookup_frag frags pkb.ip) [
  | none ↦ reass_in pkb [] (new_frag pkb.ip) frags
  | some (front, frag, back) ↦ reass_in pkb front frag back
]
