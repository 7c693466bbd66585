-- ===== src/Planning/Templates.antt =====
-- planning/templates.py: the phases of a plan, assembled from the competition's category.
use dext.Base.{ℕ, String, Bool, true, false, List, [], ◌∷◌, ◌++◌, if◌then◌else◌, ◌==◌}
use dext.Base.Floats.{Floats}
use dext.Planning.Types.{TemplateTask, PhaseTemplate}
use dext.Planning.Card.{CompetitionCard}

-- `_CATEGORY_TASKS`
abbrev pub category_tasks : List (String × (String × String))
category_tasks =
    ("计算机", ("算法与代码基础训练", "完成代码仓库与复盘记录"))
    ∷ ("电子信息", ("完成电路与器件基础训练", "搭建硬件联调环境"))
    ∷ ("数学建模", ("完成建模方法与工具训练", "复现一套往届题流程"))
    ∷ ("机器人", ("完成机械控制基础训练", "搭建仿真与联调环境"))
    ∷ ("工学", ("完成工程规范与计算基础", "拆解工程约束和验收指标"))
    ∷ ("经管", ("完成案例分析框架训练", "建立数据与论证材料库"))
    ∷ ("综合与创业", ("明确用户问题与价值假设", "完成原型和验证记录"))
    ∷ ("语言艺术", ("完成表达与文本基本功训练", "建立作品修改记录"))
    ∷ ("医学生命科学", ("完成研究伦理与方法基础", "建立实验或数据分析记录"))
    ∷ []

abbrev pub default_tasks : String × String
default_tasks = ("完成领域基础训练", "建立过程记录")

unfoldable pub tasks_for : List (String × (String × String)) → String → String × String
tasks_for [] category = default_tasks
tasks_for ((c, tasks) ∷ rest) category = if c == category then tasks else tasks_for rest category

module _ (fl : Floats) where
  open fl use {Float, of_ℕ, hundredths}

  abbrev task : String → String → ℕ → Bool → String → TemplateTask Float
  task key label hours required min_experience = record {
    key = key;
    label = label;
    estimated_hours = of_ℕ hours;
    required = required;
    min_experience = min_experience;
  }

  abbrev phase : String → String → ℕ → List (TemplateTask Float) → PhaseTemplate Float
  phase key label weight tasks = record {
    key = key;
    label = label;
    weight = hundredths weight;
    tasks = tasks;
  }

  abbrev common_phases : String × String → String → List (PhaseTemplate Float)
  common_phases foundations experience_level =
      phase "foundation" "基础准备" 22 (
        task "foundation-core" foundations.0 12 true "beginner"
        ∷ task "foundation-record" foundations.1 6 (experience_level == "beginner") "beginner"
        ∷ [])
      ∷ phase "practice" "专项实践" 34 (
          task "practice-required" "完成至少一轮专项实践" 20 true "beginner"
          ∷ task "practice-review" "进行阶段复盘并修正方案" 6 false "beginner"
          ∷ task "practice-replication" "复现高质量案例或代码" 12 false "experienced"
          ∷ [])
      ∷ phase "simulation" "模拟与验收" 24 (
          task "simulation-required" "完成全流程模拟" 12 true "beginner"
          ∷ task "simulation-review" "按验收清单修复问题" 8 true "beginner"
          ∷ [])
      ∷ []

  abbrev submission_phases : List (PhaseTemplate Float)
  submission_phases =
      phase "submission" "提交准备" 12 (task "submission-package" "完成提交材料与合规检查" 8 true "beginner" ∷ [])
      ∷ phase "defense_prep" "答辩准备" 8 (
          task "defense-required" "准备答辩材料并完成演练" 8 true "beginner"
          ∷ task "defense-advanced" "进行压力问答和验收" 6 false "experienced"
          ∷ [])
      ∷ []

  abbrev window_phases : List (PhaseTemplate Float)
  window_phases =
      phase "event_sprint" "比赛窗口冲刺" 12 (task "event-required" "执行比赛窗口分工与检查" 8 true "beginner" ∷ [])
      ∷ phase "recovery" "恢复与复盘" 8 (task "recovery-required" "完成赛后归档和复盘" 4 true "beginner" ∷ [])
      ∷ []

  unfoldable pub build_phase_templates :
      CompetitionCard → String → String → List (PhaseTemplate Float)
  unfolding tasks_for
  build_phase_templates card time_model experience_level =
      let foundations = tasks_for category_tasks card.category in
      common_phases foundations experience_level
      ++ (if time_model == "submission_deadline" then submission_phases else window_phases)
