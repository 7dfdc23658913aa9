-- ===== src/Tun/Tests.antt =====
-- Runs of the theorems on the policy routing at small inputs.
use v2ray_e.Base.{
  if◌then◌else◌, List, ◌≡◌, ◌↔◌, refl, true, false, ◌||◌, [], ◌∷◌, ◌++◌, none, some, arith, leb,
  take,
}
use v2ray_e.Base.Text.{
  Text, txt, fields, trim_space, text_eq, contains, has_suffix, atoi, trim_suffix,
}
use v2ray_e.Base.Text.Fields.{looks_like_word, looks_like_word-IsWord}
use v2ray_e.Tun.Rules.{rule_priority, is_managed_line, line_target}
use v2ray_e.Tun.Rules.Lines.{catch_all, bypass, rule_line, rule_line-read_back}
use v2ray_e.Tun.Rules.Own.{IsOwn, is_managed_line_iff}
use v2ray_e.Tun.Bypass.{Netip, v4, v6, mem, ip_prefix, bypass_rules}
use v2ray_e.Tun.Drift.{diff_sets, is_empty, parse_installed}
use v2ray_e.Tun.Drift.Exact.{is_empty-diff_sets_iff}
use v2ray_e.Tun.Install.{Kernel, install}
use v2ray_e.Tun.Install.Output.{
  output, Among, no_lines, own_line, other_line, looks_like_one_line, looks_like_one_line-NoNewline,
}
use v2ray_e.Tun.Install.Settles.{AcceptsAll, ReadsBack, capacity, shown, install-settles_iff}

abbrev host : Text
host = txt "10.0.0.1"

abbrev host_prefix : Text
host_prefix = txt "10.0.0.1/32"

rule_line-read_back_example :
    (is_managed_line (rule_line 10001 (bypass host)) ≡ true)
    × (rule_priority (rule_line 10001 (bypass host)) ≡ some 10001)
    × (line_target (rule_line 10001 (bypass host)) ≡ some host)
unfolding looks_like_word
rule_line-read_back_example =
    rule_line-read_back 10001 (bypass host) (looks_like_word-IsWord host refl) (omega arith)
      (omega arith)

is_managed_line_iff_example :
    (is_managed_line (rule_line 10001 catch_all) ≡ true)
    ↔ IsOwn (fields (rule_line 10001 catch_all))
is_managed_line_iff_example = is_managed_line_iff (rule_line 10001 catch_all)

-- One address and its prefix are known.
abbrev one_host : Netip
one_host = record {
  Addr = Unit;
  Prefix = Unit;
  parse_addr = λ t. some tt;
  parse_prefix = λ t. some tt;
  addr_of = λ p. tt;
  is_4 = λ a. true;
  is_6 = λ a. false;
  addr_string = λ a. host;
  prefix_string = λ p. host_prefix;
  lookup_ip = λ t. none;
}

one_host-reads : ip_prefix one_host host_prefix v4 ≡ some host_prefix
unfolding ip_prefix trim_space text_eq contains
one_host-reads = refl

-- Addresses of both families by their separators. An address may have a zone, a prefix may not.
abbrev zoned : Netip
zoned = record {
  Addr = Text;
  Prefix = Text;
  parse_addr = λ t. if contains t (txt ":") || contains t (txt ".") then some t else none;
  parse_prefix = λ t. if contains t (txt "%") then none else some t;
  addr_of = λ p. p;
  is_4 = λ a. contains a (txt ".");
  is_6 = λ a. contains a (txt ":");
  addr_string = λ a. a;
  prefix_string = λ p. p;
  lookup_ip = λ t. none;
}

abbrev link_local : Text
link_local = txt "fe80::1"

abbrev on_eth0 : Text
on_eth0 = txt "fe80::1%eth0"

-- Of two name servers the one with a zone is not in the bypass set.
zone_is_lost : bypass_rules zoned [] (on_eth0 ∷ link_local ∷ []) [] none v6 ≡ txt "fe80::1/128" ∷ []
unfolding bypass_rules ip_prefix trim_space text_eq contains mem
zone_is_lost = refl

is_empty-diff_sets_iff_example :
    (is_empty (diff_sets (host ∷ []) []) ≡ true) ↔ ((x : Text) → mem x (host ∷ []) ≡ mem x [])
is_empty-diff_sets_iff_example = is_empty-diff_sets_iff (host ∷ []) []

abbrev willing : Kernel
willing = record { accepts_route = true; accepts_rule = λ p r. true }

willing-AcceptsAll : AcceptsAll willing
willing-AcceptsAll = record { route = refl; rule = λ p r. refl }

abbrev unchanged : Text → Text
unchanged t = t

host_prefix-ReadsBack : ReadsBack one_host v4 unchanged host_prefix
unfolding looks_like_word
host_prefix-ReadsBack = record {
  word = looks_like_word-IsWord host_prefix refl;
  reads = one_host-reads;
}

-- The rules of the kernel itself come first and last.
abbrev first_line : Text
first_line = txt "0: from all lookup local"

abbrev last_line : Text
last_line = txt "32766: from all lookup main"

abbrev kernel_lines : List Text
kernel_lines =
    first_line ∷ (shown unchanged ((install willing (host_prefix ∷ []) []).1) ++ last_line ∷ [])

other_end : (own : List Text) → Among own (own ++ last_line ∷ [])
unfolding line_target rule_priority fields trim_space looks_like_one_line has_suffix atoi
    trim_suffix take
other_end [] =
    other_line last_line [] [] (looks_like_one_line-NoNewline last_line refl) refl no_lines
other_end (l ∷ own) = own_line l own (own ++ last_line ∷ []) (other_end own)

kernel_lines-Among :
    Among (shown unchanged ((install willing (host_prefix ∷ []) []).1)) kernel_lines
unfolding line_target rule_priority fields trim_space looks_like_one_line has_suffix atoi
    trim_suffix take
kernel_lines-Among =
    other_line first_line _ _ (looks_like_one_line-NoNewline first_line refl) refl (other_end _)

install-settles_iff_example :
    is_empty (diff_sets (host_prefix ∷ []) (parse_installed one_host v4 (output kernel_lines)))
    ≡ leb 1 capacity
unfolding mem
install-settles_iff_example =
    install-settles_iff one_host v4 unchanged willing (host_prefix ∷ []) kernel_lines
      willing-AcceptsAll (refl, tt) (host_prefix-ReadsBack, tt) kernel_lines-Among
