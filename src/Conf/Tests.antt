-- ===== src/Conf/Tests.antt =====
-- Runs of the configuration reader, and its properties at concrete lines.
use fusg.Base.{none, some, Bytes, codes, equal, ℤ, success, ◌≡◌, refl}
use fusg.Conf.Tokens.{skip_white, scan_string, token_string, split_word, token}
use fusg.Conf.Lines.{
  Conf, err_conf, config_init, property, parse_end, parse_value, parse_equals, parse_line,
  fusg_conf_read,
}
use fusg.Conf.Scan.{IsPlain}
use fusg.Conf.Atomic.{IsAtomic, parse_line-IsAtomic}
use fusg.Conf.Total.{IsRead, fusg_conf_read-total}

abbrev log_line : Bytes
log_line = codes "  fusgd_log = /tmp/log  # here"

test_parse_line :
    parse_line config_init log_line
    ≡ some (success, record config_init { fusgd_log = codes "/tmp/log" })
unfolding parse_line parse_equals parse_value parse_end property token token_string scan_string
    split_word skip_white equal
test_parse_line = refl

parse_line-IsAtomic_example : IsAtomic config_init (parse_line config_init (codes "db_path /x"))
parse_line-IsAtomic_example = parse_line-IsAtomic config_init (codes "db_path /x")

fusg_conf_read-total_example :
    ((r : ℤ × Conf) × (fusg_conf_read (some (codes "a='/'\n#")) ≡ some r) × IsRead r)
    × (fusg_conf_read none ≡ some (err_conf, config_init))
fusg_conf_read-total_example = fusg_conf_read-total (codes "a='/'\n#") plain
  where
    plain : IsPlain (codes "a='/'\n#")
    plain = (refl, (refl, (refl, (refl, (refl, (refl, (refl, tt)))))))

abbrev db_path_name : Bytes
db_path_name = codes "db_path"
