-- ===== src/Runner/Cluster/Scripts.antt =====
-- The shell scripts of internal/runner/cluster.go.
use klab.Prelude.{List, [], ◌∷◌, ◌++◌}
use klab.Text.{Text, str, join}

unfoldable pub create_bridge_script : Text → Text
create_bridge_script n =
    str "ip link del "
    ++ (n
        ++ (str " 2>/dev/null || true\nip link add "
            ++ (n
                ++ (str " type bridge\nip link set "
                    ++ (n
                        ++ (str " up\nip link set "
                            ++ (n
                                ++ str
                                    " type bridge stp_state 0 2>/dev/null || true\nmodprobe br_netfilter 2>/dev/null || true\necho 0 > /proc/sys/net/bridge/bridge-nf-call-iptables 2>/dev/null || true\niptables -P FORWARD ACCEPT 2>/dev/null || true")))))))

unfoldable pub create_tap_script : Text → Text → Text
create_tap_script tap bridge =
    str "ip tuntap add "
    ++ (tap
        ++ (str " mode tap 2>/dev/null || true\nip link set "
            ++ (tap
                ++ (str " master " ++ (bridge ++ (str "\nip link set " ++ (tap ++ str " up")))))))

unfoldable pub prep_rootfs_script : Text → Text → Text
prep_rootfs_script base run =
    str "rm -rf "
    ++ (run
        ++ (str " && mkdir -p "
            ++ (run ++ (str "/rw/ctl && cp -a " ++ (base ++ (str " " ++ (run ++ str "/rootfs")))))))

-- ipConfigCmd
unfoldable pub ip_config_cmd : Text → Text → List Text
ip_config_cmd mac ip =
    str "sh"
    ∷ str "-c"
    ∷ (str "for f in /sys/class/net/*/address; do\n  if [ \"$(cat \"$f\")\" = \""
        ++ (mac
            ++ (str "\" ]; then\n    d=$(basename \"$(dirname \"$f\")\")\n    ip addr add "
                ++ (ip
                    ++ str " dev \"$d\" && ip link set \"$d\" up && exit 0\n  fi\ndone\nexit 1"))))
    ∷ []

unfoldable pub delete_script : List Text → Text
delete_script links =
    str "for l in "
    ++ (join links (str " ") ++ str "; do ip link del \"$l\" 2>/dev/null || true; done")

-- The script by which Status asks whether the machine runs.
unfoldable pub running_script : Text → Text
running_script run = str "kill -0 \"$(cat " ++ (run ++ str "/qemu.pid 2>/dev/null)\" 2>/dev/null")
