-- ===== src/Exporter/Names/Examples.antt =====
-- The address of a backend, with and without a retry.
use llm_openresty.Base.{◌≡◌, refl, ◌++◌, codes}
use llm_openresty.Exporter.Names.{backend_ip}
use llm_openresty.Exporter.Names.Backend.{retry_suffix, backend_ip_lem}

backend_ip_lem_example :
    (backend_ip (codes "10.0.0.7:8000") ≡ codes "10.0.0.7")
    × (backend_ip (codes "10.0.0.7:8000" ++ retry_suffix (codes "2")) ≡ codes "10.0.0.7")
backend_ip_lem_example =
    backend_ip_lem b'1' (codes "0.0.0.7") (codes "800") (codes "2") b'0' refl refl
      (refl, (refl, (refl, (refl, (refl, (refl, (refl, (refl, tt))))))))
      (refl, (refl, (refl, (refl, tt)))) (refl, (refl, (refl, (refl, tt))))
