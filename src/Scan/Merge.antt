-- ===== src/Scan/Merge.antt =====
-- internal/scan/engine.go: `mergeHosts` and `mergeDevice`. The map from printed addresses and the
-- slice `order` are one list of hosts in order of insertion; a host's key is its printed address.
use motzworks.Prelude.{
  ℕ, ◌≡◌, refl, ◌∙◌, Bool, true, false, ◌&&◌, ◌||◌, List, [], ◌∷◌, ◌++◌, map, arith, nat_Eq, ◌==◌,
  contains, contains-snoc, Distinct, Bool-cases, inl, inr, if◌then◌else◌,
}
use motzworks.Text.{Text, text_Eq, text_eq, text_eq_iff, is_empty}
use motzworks.Addr.{Addr, is_valid}
use motzworks.Model.{Device, DeviceType, unset, unknown}
use motzworks.Discovery.Probe.{Host, has_port}

-- if !cur.HasPort(p) { cur.OpenPorts = append(cur.OpenPorts, p) }
unfoldable pub add_port : Host → ℕ → Host
unfolding has_port
add_port cur p =
    if has_port cur p then cur else record cur { open_ports = cur.open_ports ++ p ∷ [] }

unfoldable pub add_ports : Host → List ℕ → Host
add_ports cur [] = cur
add_ports cur (p ∷ ps) = add_ports (add_port cur p) ps

module _ (print_addr : Addr → Text) where
  -- The closure `add`.
  unfoldable pub add_host : List Host → Host → List Host
  add_host [] h = h ∷ []
  add_host (cur ∷ rest) h =
      if text_eq (print_addr cur.addr) (print_addr h.addr)
      then add_ports cur h.open_ports ∷ rest
      else cur ∷ add_host rest h

  unfoldable pub add_hosts : List Host → List Host → List Host
  add_hosts merged [] = merged
  add_hosts merged (h ∷ hs) = add_hosts (add_host merged h) hs

  unfoldable pub merge_hosts : List Host → List Host → List Host
  merge_hosts primary extra = add_hosts (add_hosts [] primary) extra

unfoldable pub untyped : DeviceType → Bool
untyped unset = true
untyped unknown = true
untyped _ = false

-- mergeDevice
unfoldable pub merge_device : Device → Device → Text → Device
unfolding untyped
merge_device base collected source = record collected {
  primary_ip = if is_valid collected.primary_ip then collected.primary_ip else base.primary_ip;
  device_type = if untyped collected.device_type then base.device_type else collected.device_type;
  source = if is_empty collected.source then source else collected.source;
}

addr-add_port : (h : Host) (p : ℕ) → (add_port h p).addr ≡ h.addr
unfolding add_port
addr-add_port h p = ground arith

contains-add_port :
    (h : Host) (q p : ℕ)
    → contains (add_port h q).open_ports p ≡ (contains h.open_ports p || q == p)
unfolding add_port
contains-add_port h q p = ground (arith, contains-snoc h.open_ports q p)

addr-add_ports : (h : Host) (ps : List ℕ) → (add_ports h ps).addr ≡ h.addr
unfolding add_ports
addr-add_ports h [] = refl
addr-add_ports h (p ∷ ps) = addr-add_ports (add_port h p) ps ∙ addr-add_port h p

contains-add_ports :
    (h : Host) (ps : List ℕ) (p : ℕ)
    → contains (add_ports h ps).open_ports p ≡ (contains h.open_ports p || contains ps p)
unfolding add_ports contains
contains-add_ports h [] p = ground arith
contains-add_ports h (q ∷ ps) p =
    contains-add_ports (add_port h q) ps p ∙ ground (arith, contains-add_port h q p)

module _ (print_addr : Addr → Text) where
  abbrev pub keys : List Host → List Text
  keys = map (λ h. print_addr h.addr)

  -- Some host of the list has this printed address and this port.
  pub reports : List Host → Text → ℕ → Bool
  reports [] k p = false
  reports (h ∷ hs) k p =
      (text_eq (print_addr h.addr) k && contains h.open_ports p) || reports hs k p

  reports-add_host :
      (hs : List Host) (h : Host) (k : Text) (p : ℕ)
      → reports (add_host print_addr hs h) k p
        ≡ (reports hs k p || (text_eq (print_addr h.addr) k && contains h.open_ports p))
  unfolding add_host reports
  reports-add_host [] h k p = ground arith
  reports-add_host (c ∷ hs) h k p =
      elim (Bool-cases (text_eq (print_addr c.addr) (print_addr h.addr))) [
        | inl hit ↦
            rw (hit, addr-add_ports c h.open_ports, contains-add_ports c h.open_ports p)
              (rw ((text_eq_iff _ _).0 hit) (ground arith))
        | inr miss ↦ rw (miss, reports-add_host hs h k p) (ground arith)
      ]

  pub contains-keys-add_host :
      (hs : List Host) (h : Host) (k : Text)
      → contains (keys (add_host print_addr hs h)) k
        ≡ (contains (keys hs) k || text_eq (print_addr h.addr) k)
  unfolding add_host contains
  contains-keys-add_host [] h k = ground arith
  contains-keys-add_host (c ∷ hs) h k =
      elim (Bool-cases (text_eq (print_addr c.addr) (print_addr h.addr))) [
        | inl hit ↦
            rw (hit, addr-add_ports c h.open_ports) (rw ((text_eq_iff _ _).0 hit) (ground arith))
        | inr miss ↦ rw (miss, contains-keys-add_host hs h k) (ground arith)
      ]

  Distinct-add_host :
      (hs : List Host) (h : Host) → Distinct (keys hs) → Distinct (keys (add_host print_addr hs h))
  unfolding add_host contains
  Distinct-add_host [] h d = (refl, tt)
  Distinct-add_host (c ∷ hs) h d =
      elim (Bool-cases (text_eq (print_addr c.addr) (print_addr h.addr))) [
        | inl hit ↦ rw (hit, addr-add_ports c h.open_ports) d
        | inr miss ↦ rw miss (
          contains-keys-add_host hs h (print_addr c.addr)
              ∙ ground (
                arith,
                text_eq_iff (print_addr c.addr) (print_addr h.addr),
                text_eq_iff (print_addr h.addr) (print_addr c.addr),
              ),
          Distinct-add_host hs h d.1,
        )
      ]

  add_hosts_lem :
      (merged hs : List Host)
      → Distinct (keys merged)
      → Distinct (keys (add_hosts print_addr merged hs))
        × ((k : Text) (p : ℕ)
            → reports (add_hosts print_addr merged hs) k p ≡ (reports merged k p || reports hs k p))
  unfolding add_hosts reports
  add_hosts_lem merged [] d = (d, λ k p. ground arith)
  add_hosts_lem merged (h ∷ hs) d =
      let (d', r) =
        add_hosts_lem (add_host print_addr merged h) hs (Distinct-add_host merged h d) in
      (d', λ k p. r k p ∙ ground (arith, reports-add_host merged h k p))

  -- The merged list has one host for each address that either list names, and a port is open on it
  -- exactly if either list reports it open there.
  pub merge_hosts-union :
      (primary extra : List Host)
      → Distinct (keys (merge_hosts print_addr primary extra))
        × ((k : Text) (p : ℕ)
            → reports (merge_hosts print_addr primary extra) k p
              ≡ (reports primary k p || reports extra k p))
  unfolding merge_hosts reports
  merge_hosts-union primary extra =
      let (d, r) = add_hosts_lem [] primary tt in
      let (d', r') = add_hosts_lem (add_hosts print_addr [] primary) extra d in
      (d', λ k p. r' k p ∙ ground (arith, r k p))
