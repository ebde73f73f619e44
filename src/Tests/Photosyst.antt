-- ===== src/Tests/Photosyst.antt =====
-- Lines of the kernel's text files.
use practice.Base.{
  Bool, true, Option, none, some, ℕ, suc, ◌≡◌, refl, ◌-◌, ◌+◌, ◌<◌, min, List, [], ◌∷◌, ◌++◌,
  get_or, take, drop, length, arith,
}
use practice.Base.Text.{Bytes, codes, same_text}
use practice.Atop.Sstat.{Netstat}
use practice.Atop.System.Names.{IsAllNamed}
use practice.Atop.System.Interfaces.{intf_name}
use practice.Atop.Photosyst.Scan.{isspace, skip_space, read_lld, read_digits_as, scan_line}
use practice.Atop.Photosyst.Scan.Text.{IsEnd, IsWord, line_text, scan_line-line_text}
use practice.Atop.System.Disks.{no_perdsk}
use practice.Atop.Photosyst.Lines.{Vars}
use practice.Atop.Photosyst.Devmap.{MapEntry, short_name, setup_devmaps, lvmmapname, start_devmaps}
use practice.Atop.Photosyst.Devmap.Lookup.{last_device, lvmmapname-last_device}
use practice.Atop.Photosyst.Diskstats.{DiskLine, read_diskstats}
use practice.Atop.Photosyst.Diskstats.Bound.{IsBounded, read_diskstats-IsBounded}
use practice.Atop.Photosyst.Snmp.{read_snmp6}
use practice.Atop.Photosyst.Snmp.Order.{value_of, read_snmp6-value}
use practice.Atop.Photosyst.Netdev.{maxintf, read_netdev}
use practice.Atop.Photosyst.Netdev.Bound.{full_lines, read_netdev-take}
use practice.Atop.Photosyst.Beancounters.{
  BeanLine, BeanLine.new_container, BeanLine.resource, BeanLine.other, read_beancounters,
}
use practice.Atop.Photosyst.Beancounters.Bound.{
  IsCounted, containers_in, read_beancounters-IsCounted,
}

kilobytes-IsEnd : IsEnd (codes " kB")
unfolding read_lld read_digits_as skip_space isspace practice.Base.Text.isdigit
kilobytes-IsEnd = record { no_digit = refl; no_number = refl }

slab-IsWord : IsWord (codes "Slab:")
unfolding isspace
slab-IsWord = (refl, (refl, (refl, (refl, (refl, tt)))))

abbrev slab : Bytes
slab = line_text (codes "Slab:") (16384 ∷ []) (codes " kB")

scan_line-line_text_example :
    scan_line 10 slab [] (1 ∷ 2 ∷ [])
    ≡ record { nr = 2; nam = codes "Slab:"; cnts = 16384 ∷ 2 ∷ [] }
scan_line-line_text_example =
    scan_line-line_text 10 b'S' (codes "lab:") 16384 [] (codes " kB") [] (1 ∷ 2 ∷ []) slab-IsWord
      (omega arith) (omega arith, tt) kilobytes-IsEnd

abbrev no_netstat : Netstat
no_netstat = record {
  ipv4 = [];
  icmpv4 = [];
  udpv4 = [];
  ipv6 = [];
  icmpv6 = [];
  udpv6 = [];
  tcp = [];
}

-- The counters of UDP before those of IP.
abbrev snmp6 : List Bytes
snmp6 = codes "Udp6InDatagrams 7" ∷ codes "Ip6InReceives 9" ∷ []

abbrev snmp6_read : Vars Netstat
snmp6_read = read_snmp6 snmp6 (record { nam = []; cnts = []; si = no_netstat })

read_snmp6-value_example :
    (let net = snmp6_read.si in
      (0 < 22 → get_or net.ipv6 0 0 ≡ value_of snmp6 0)
      × (0 < 28 → get_or net.icmpv6 0 0 ≡ value_of snmp6 (22 + 0))
      × (0 < 4 → get_or net.udpv6 0 0 ≡ value_of snmp6 (50 + 0)))
read_snmp6-value_example =
    read_snmp6-value snmp6 (record { nam = []; cnts = []; si = no_netstat }) 0

abbrev netdev : List Bytes
netdev =
    codes "Inter-| Receive"
    ∷ codes "  lo: 100 1 0 0 0 0 0 0 100 1 0 0 0 0 0 0"
    ∷ codes "eth0:2500 9 0 0 0 0 0 0 700 5 0 0 0 0 0 0"
    ∷ []

read_netdev-take_example :
    ((read_netdev netdev).intf ≡ take (maxintf - 1) (full_lines netdev))
    × ((read_netdev netdev).nrintf ≡ min (maxintf - 1) (length (full_lines netdev)))
    × IsAllNamed intf_name (read_netdev netdev).intf
read_netdev-take_example = read_netdev-take netdev

abbrev beans : List BeanLine
beans =
    other
    ∷ new_container 101 (codes "kmemsize") 5000
    ∷ resource (codes "numproc") 12
    ∷ new_container 102 (codes "kmemsize") 6000
    ∷ []

read_beancounters-IsCounted_example : IsCounted (containers_in beans) (read_beancounters beans)
read_beancounters-IsCounted_example = read_beancounters-IsCounted beans

abbrev entry : Bytes → ℕ → ℕ → MapEntry
entry name major minor = record {
  d_name = name;
  stat_ok = true;
  is_block = true;
  has_memory = true;
  major = major;
  minor = minor;
}

abbrev mapper : List MapEntry
mapper = entry (codes "root") 253 0 ∷ entry (codes "home") 253 1 ∷ []

lvmmapname-last_device_example :
    lvmmapname (setup_devmaps (some mapper) start_devmaps) 253 1 (codes "dm-1")
    ≡ elim (last_device 253 1 mapper none) [
      | none ↦ short_name (codes "dm-1")
      | some name ↦ short_name name
    ]
lvmmapname-last_device_example = lvmmapname-last_device 253 1 mapper (codes "dm-1")

-- The third row of the table recognizes sda.
abbrev only_sd : Bytes → Bytes → Bool
only_sd regexp name = same_text regexp (codes "^sd[a-z][a-z]*$")

abbrev unchanged : Bytes → Bytes
unchanged name = name

abbrev disk_lines : List DiskLine
disk_lines =
    record {
      full = true;
      major = 8;
      minor = 0;
      diskname = codes "sda";
      tmpdsk = record no_perdsk { nread = 12 };
    }
    ∷ []

read_diskstats-IsBounded_example :
    IsBounded (read_diskstats only_sd unchanged start_devmaps disk_lines [])
read_diskstats-IsBounded_example =
    read_diskstats-IsBounded only_sd unchanged start_devmaps disk_lines []
