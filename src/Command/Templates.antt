-- ===== src/Command/Templates.antt =====
-- cmd/devagent/cli.go, the two files that `init` writes, line by line.
use devagent.Base.{String, List, [], ◌∷◌}

abbrev pub global_config_template : List String
global_config_template =
    "# devagent 全局配置" ∷ "sidecar:" ∷ "  mdns_interval: 10s" ∷ "  dedup_ttl: 3s"
    ∷ "  health_check_interval: 30s" ∷ "  maintenance_timeout: 60s" ∷ "  heartbeat_timeout: 90s"
    ∷ "  # 静态网关（可选）：sidecar 与 daemon 同机运行、或 mDNS 不可用时直接指定" ∷ "  # static_gateways:"
    ∷ "  #   - { id: \"gw_mock\", url: \"http://localhost:8082\" }" ∷ "" ∷ "daemon:"
    ∷ "  heartbeat_interval: 30s" ∷ "  heartbeat_timeout: 60s" ∷ "  state_path: \"\"" ∷ ""
    ∷ "log_level: info" ∷ "" ∷ "token:" ∷ "  secret: \"\"          # 留空则不校验 token；生产环境建议 >= 16 字符"
    ∷ "  default_ttl: 3600s" ∷ []

abbrev pub device_config_template : List String
device_config_template =
    "# 示例设备物模型（无硬件，可直接运行）"
    ∷ "# 启动：devagent -mode daemon -port 8082 -config device.yaml -gateway-id gw_mock" ∷ "device:"
    ∷ "  id: \"mock_gw\"" ∷ "  name: \"模拟设备（无需硬件）\"" ∷ "  type: \"direct\"" ∷ "" ∷ "capabilities:"
    ∷ "  - name: set_relay" ∷ "    description: \"控制继电器通断（模拟，无真实硬件）\"" ∷ "    inputSchema:"
    ∷ "      type: object" ∷ "      properties:"
    ∷ "        pin:   { type: integer, enum: [1, 2, 3], unit: \"gpio_pin\" }"
    ∷ "        state: { type: boolean, unit: \"on_off\" }" ∷ "      required: [pin, state]"
    ∷ "    implementation:" ∷ "      native: \"shell\"" ∷ "      allowed_commands: [\"echo\"]"
    ∷ "      cmd_map:"
    ∷ "        set_relay: { cmd: 0, fmt: \"echo mock relay pin={pin} state={state}\" }"
    ∷ "      timeout_ms: 5000" ∷ []
