-- ===== src/Tls/Endpoints.antt =====
-- src/endpoints/tls/*.ts and endpoint-index.ts: the endpoints that a part of a hostname names, in
-- the order of their export names, which is that of a module namespace. `untrustedRoot` is
-- `untrusted_root`, and so on.
use testserver.Prelude.{true, false, none, some, List, [], ◌∷◌, ◌++◌}
use testserver.Text.{Text, codes}
use testserver.Tls.{bool, num, str, strs, TlsEndpoint}

abbrev pub append_protocol : Text → List Text → List Text
append_protocol protocol preferences = preferences ++ protocol ∷ []

abbrev pub dh_1024_params : Text
dh_1024_params =
    codes "-----BEGIN DH PARAMETERS-----"
    ++ (10
        ∷ (codes "MIGHAoGBAPwIcVZU2Dt7WtCI8hhI8wECGgMidZpXASdKXwAQReA+739EGI4HUmM4"
            ++ (10
                ∷ (codes "qkm2vyhAReLHc4UALQI8SKV5G7WDHKIAZi0sDofR3qitV2Z44aVk0u4Z3M8S1NA9"
                    ++ (10
                        ∷ (codes "aSgcv6Iz0BQPADQkEq28bRT0i3/A+K6DuHbC98RtnhqF+OuaHXJ/AgEC"
                            ++ (10 ∷ (codes "-----END DH PARAMETERS-----"))))))))

abbrev pub dh_2048_params : Text
dh_2048_params =
    codes "-----BEGIN DH PARAMETERS-----"
    ++ (10
        ∷ (codes "MIIBCAKCAQEAhEM9PY7cnvVzkOwE37JFRQCwoEa3sXoxbvLy5sHkPPwpu8/jM4wZ"
            ++ (10
                ∷ (codes "C0v7T1EOf6Kk94NZDAnghUC8t0PGV9Dfel/QOG7F/fBiiGyqyMHg99+aLxsbY5i3"
                    ++ (10
                        ∷ (codes "Y6eIwZj7JeuEIgrIS2NQ67Pn8tPEr7yDZHscJruyY+97K56h3h16Oyjgp8YLeglJ"
                            ++ (10
                                ∷ (codes
                                      "iMLZxVVqLNY0bI9is9Prhf9+QRgepuGK3eBaSybJYpdXv3ztWF5l8wgy+GxkZJB9"
                                    ++ (10
                                        ∷ (codes
                                              "aI/FRfUQi5FLOLv7p8v2LOvHVsoZZoMZh4DcH7BbNfyf2SYbz/tPcSDm2sZd57WK"
                                            ++ (10
                                                ∷ (codes "oBMuASJHcaqiTS7Al86HkBdup48Xe4jGjwIBAg=="
                                                    ++ (10
                                                        ∷ (codes
                                                            "-----END DH PARAMETERS-----"))))))))))))))

unfoldable pub cbc : TlsEndpoint
cbc = record {
  sni_part = codes "cbc";
  plain_text_allowed = false;
  configure_cert_options = none;
  configure_tls_options = some (
      (codes "ciphers", some (str (codes "ECDHE-RSA-AES128-SHA:AES128-SHA")))
      ∷ (codes "securityLevel", some (num 0))
      ∷ (codes "maxVersion", some (str (codes "TLSv1.2")))
      ∷ []);
  configure_alpn_preferences = none;
}

unfoldable pub client_cert : TlsEndpoint
client_cert = record {
  sni_part = codes "client-cert";
  plain_text_allowed = false;
  configure_cert_options = none;
  configure_tls_options = some ((codes "requireClientCert", some (bool true)) ∷ []);
  configure_alpn_preferences = none;
}

unfoldable pub dh1024 : TlsEndpoint
dh1024 = record {
  sni_part = codes "dh1024";
  plain_text_allowed = false;
  configure_cert_options = none;
  configure_tls_options = some (
      (codes "ciphers", some (str (codes "DHE-RSA-AES128-SHA:DHE-RSA-AES256-SHA")))
      ∷ (codes "securityLevel", some (num 0))
      ∷ (codes "maxVersion", some (str (codes "TLSv1.2")))
      ∷ (codes "dhparam", some (str dh_1024_params))
      ∷ []);
  configure_alpn_preferences = none;
}

unfoldable pub dh2048 : TlsEndpoint
dh2048 = record {
  sni_part = codes "dh2048";
  plain_text_allowed = false;
  configure_cert_options = none;
  configure_tls_options = some (
      (codes "ciphers", some (str (codes "DHE-RSA-AES128-SHA:DHE-RSA-AES256-SHA")))
      ∷ (codes "securityLevel", some (num 0))
      ∷ (codes "maxVersion", some (str (codes "TLSv1.2")))
      ∷ (codes "dhparam", some (str dh_2048_params))
      ∷ []);
  configure_alpn_preferences = none;
}

unfoldable pub example : TlsEndpoint
example = record {
  sni_part = codes "example";
  plain_text_allowed = true;
  configure_cert_options = none;
  configure_tls_options = none;
  configure_alpn_preferences = none;
}

unfoldable pub expired : TlsEndpoint
expired = record {
  sni_part = codes "expired";
  plain_text_allowed = false;
  configure_cert_options = some ((codes "expired", some (bool true)) ∷ []);
  configure_tls_options = none;
  configure_alpn_preferences = none;
}

unfoldable pub http1 : TlsEndpoint
http1 = record {
  sni_part = codes "http1";
  plain_text_allowed = false;
  configure_cert_options = none;
  configure_tls_options = none;
  configure_alpn_preferences = some (append_protocol (codes "http/1.1"));
}

unfoldable pub http2 : TlsEndpoint
http2 = record {
  sni_part = codes "http2";
  plain_text_allowed = false;
  configure_cert_options = none;
  configure_tls_options = none;
  configure_alpn_preferences = some (append_protocol (codes "h2"));
}

unfoldable pub incomplete_chain : TlsEndpoint
incomplete_chain = record {
  sni_part = codes "incomplete-chain";
  plain_text_allowed = false;
  configure_cert_options =
      some (
        (codes "incompleteChain", some (bool true)) ∷ (codes "selfSigned", some (bool false)) ∷ []);
  configure_tls_options = none;
  configure_alpn_preferences = none;
}

unfoldable pub no_common_name : TlsEndpoint
no_common_name = record {
  sni_part = codes "no-common-name";
  plain_text_allowed = false;
  configure_cert_options = some (
      (codes "requiredType", some (str (codes "local")))
      ∷ (codes "noCommonName", some (bool true))
      ∷ []);
  configure_tls_options = none;
  configure_alpn_preferences = none;
}

unfoldable pub no_tls : TlsEndpoint
no_tls = record {
  sni_part = codes "no-tls";
  plain_text_allowed = true;
  configure_cert_options = none;
  configure_tls_options = some ((codes "rejectTls", some (bool true)) ∷ []);
  configure_alpn_preferences = none;
}

unfoldable pub null_cipher : TlsEndpoint
null_cipher = record {
  sni_part = codes "null-cipher";
  plain_text_allowed = false;
  configure_cert_options = none;
  configure_tls_options = some (
      (codes "ciphers", some (str (codes "NULL-SHA:NULL-SHA256")))
      ∷ (codes "securityLevel", some (num 0))
      ∷ (codes "maxVersion", some (str (codes "TLSv1.2")))
      ∷ []);
  configure_alpn_preferences = none;
}

unfoldable pub revoked : TlsEndpoint
revoked = record {
  sni_part = codes "revoked";
  plain_text_allowed = false;
  configure_cert_options = some ((codes "revoked", some (bool true)) ∷ []);
  configure_tls_options = none;
  configure_alpn_preferences = none;
}

unfoldable pub rsa1024 : TlsEndpoint
rsa1024 = record {
  sni_part = codes "rsa1024";
  plain_text_allowed = false;
  configure_cert_options = some (
      (codes "requiredType", some (str (codes "local"))) ∷ (codes "keyBits", some (num 1024)) ∷ []);
  configure_tls_options = some ((codes "securityLevel", some (num 1)) ∷ []);
  configure_alpn_preferences = none;
}

unfoldable pub rsa2048 : TlsEndpoint
rsa2048 = record {
  sni_part = codes "rsa2048";
  plain_text_allowed = false;
  configure_cert_options = some (
      (codes "requiredType", some (str (codes "local"))) ∷ (codes "keyBits", some (num 2048)) ∷ []);
  configure_tls_options = none;
  configure_alpn_preferences = none;
}

unfoldable pub rsa4096 : TlsEndpoint
rsa4096 = record {
  sni_part = codes "rsa4096";
  plain_text_allowed = false;
  configure_cert_options = some (
      (codes "requiredType", some (str (codes "local"))) ∷ (codes "keyBits", some (num 4096)) ∷ []);
  configure_tls_options = none;
  configure_alpn_preferences = none;
}

unfoldable pub rsa512 : TlsEndpoint
rsa512 = record {
  sni_part = codes "rsa512";
  plain_text_allowed = false;
  configure_cert_options =
      some (
        (codes "requiredType", some (str (codes "local")))
        ∷ (codes "keyBits", some (num 512))
        ∷ []);
  configure_tls_options = some (
      (codes "ciphers", some (str (codes "AES128-SHA")))
      ∷ (codes "securityLevel", some (num 0))
      ∷ (codes "maxVersion", some (str (codes "TLSv1.2")))
      ∷ []);
  configure_alpn_preferences = none;
}

unfoldable pub rsa8192 : TlsEndpoint
rsa8192 = record {
  sni_part = codes "rsa8192";
  plain_text_allowed = false;
  configure_cert_options = some (
      (codes "requiredType", some (str (codes "local"))) ∷ (codes "keyBits", some (num 8192)) ∷ []);
  configure_tls_options = none;
  configure_alpn_preferences = none;
}

unfoldable pub self_signed : TlsEndpoint
self_signed = record {
  sni_part = codes "self-signed";
  plain_text_allowed = false;
  configure_cert_options = some (
      (codes "requiredType", some (str (codes "local")))
      ∷ (codes "selfSigned", some (bool true))
      ∷ []);
  configure_tls_options = none;
  configure_alpn_preferences = none;
}

unfoldable pub sha1_sig : TlsEndpoint
sha1_sig = record {
  sni_part = codes "sha1-sig";
  plain_text_allowed = false;
  configure_cert_options = some (
      (codes "requiredType", some (str (codes "local")))
      ∷ (codes "sha1Signature", some (bool true))
      ∷ []);
  configure_tls_options = some ((codes "securityLevel", some (num 0)) ∷ []);
  configure_alpn_preferences = none;
}

unfoldable pub static_rsa : TlsEndpoint
static_rsa = record {
  sni_part = codes "static-rsa";
  plain_text_allowed = false;
  configure_cert_options = none;
  configure_tls_options = some (
      (
        codes "ciphers",
        some (str (codes "AES128-GCM-SHA256:AES256-GCM-SHA384:AES128-SHA:AES256-SHA")),
      )
      ∷ (codes "securityLevel", some (num 0))
      ∷ (codes "maxVersion", some (str (codes "TLSv1.2")))
      ∷ []);
  configure_alpn_preferences = none;
}

unfoldable pub tls_v1 : TlsEndpoint
tls_v1 = record {
  sni_part = codes "tls-v1-0";
  plain_text_allowed = false;
  configure_cert_options = none;
  configure_tls_options = some ((codes "enabledVersions", some (strs (codes "TLSv1" ∷ []))) ∷ []);
  configure_alpn_preferences = none;
}

unfoldable pub tls_v1_1 : TlsEndpoint
tls_v1_1 = record {
  sni_part = codes "tls-v1-1";
  plain_text_allowed = false;
  configure_cert_options = none;
  configure_tls_options = some ((codes "enabledVersions", some (strs (codes "TLSv1.1" ∷ []))) ∷ []);
  configure_alpn_preferences = none;
}

unfoldable pub tls_v1_2 : TlsEndpoint
tls_v1_2 = record {
  sni_part = codes "tls-v1-2";
  plain_text_allowed = false;
  configure_cert_options = none;
  configure_tls_options = some ((codes "enabledVersions", some (strs (codes "TLSv1.2" ∷ []))) ∷ []);
  configure_alpn_preferences = none;
}

unfoldable pub tls_v1_3 : TlsEndpoint
tls_v1_3 = record {
  sni_part = codes "tls-v1-3";
  plain_text_allowed = false;
  configure_cert_options = none;
  configure_tls_options = some ((codes "enabledVersions", some (strs (codes "TLSv1.3" ∷ []))) ∷ []);
  configure_alpn_preferences = none;
}

unfoldable pub untrusted_root : TlsEndpoint
untrusted_root = record {
  sni_part = codes "untrusted-root";
  plain_text_allowed = false;
  configure_cert_options = some (
      (codes "requiredType", some (str (codes "local")))
      ∷ (codes "selfSigned", some (bool false))
      ∷ []);
  configure_tls_options = none;
  configure_alpn_preferences = none;
}

unfoldable pub wrong_host : TlsEndpoint
wrong_host = record {
  sni_part = codes "wrong-host";
  plain_text_allowed = false;
  configure_cert_options = some ((codes "overridePrefix", some (str (codes "example"))) ∷ []);
  configure_tls_options = none;
  configure_alpn_preferences = none;
}

-- `tlsEndpoints`; the name of an endpoint, which is its export name, is read by nothing here.
unfoldable pub tls_endpoints : List TlsEndpoint
unfolding cbc client_cert dh1024 dh2048 example expired http1 http2 incomplete_chain no_common_name
    no_tls null_cipher revoked rsa1024 rsa2048 rsa4096 rsa512 rsa8192 self_signed sha1_sig
    static_rsa tls_v1 tls_v1_1 tls_v1_2 tls_v1_3 untrusted_root wrong_host
tls_endpoints =
    cbc ∷ client_cert ∷ dh1024 ∷ dh2048 ∷ example ∷ expired ∷ http1 ∷ http2 ∷ incomplete_chain
    ∷ no_common_name ∷ no_tls ∷ null_cipher ∷ revoked ∷ rsa1024 ∷ rsa2048 ∷ rsa4096 ∷ rsa512
    ∷ rsa8192 ∷ self_signed ∷ sha1_sig ∷ static_rsa ∷ tls_v1 ∷ tls_v1_1 ∷ tls_v1_2 ∷ tls_v1_3
    ∷ untrusted_root ∷ wrong_host ∷ []
